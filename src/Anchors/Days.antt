-- ===== src/Anchors/Days.antt =====
-- packages/ledger/anchor.py: the bounds of a UTC day.
use forensa.Prelude.{ℕ, ◌-◌, ◌+◌, ◌/◌, ◌%◌, ◌≤◌, ◌≡◌, refl, ◌↔◌, ok, arith}
use forensa.Anchors

-- The bounds of the day of an instant start at a midnight and enclose the instant, and an instant
-- lies between them exactly when it is of the same day.
pub day_bounds-IsDay :
    (t : ℕ)
    → (start : ℕ) × (end : ℕ) × (Anchors.day_bounds (Anchors.aware t) ≡ ok (start, end))
      × (start % Anchors.day_length ≡ 0)
      × (start ≤ t)
      × (t ≤ end)
      × ((u : ℕ) → (start ≤ u) × (u ≤ end) ↔ (u / Anchors.day_length ≡ t / Anchors.day_length))
unfolding Anchors.day_bounds
day_bounds-IsDay t = (
  t - t % Anchors.day_length,
  t - t % Anchors.day_length + (Anchors.day_length - 1),
  refl,
  omega arith,
  omega arith,
  omega arith,
  λ u. (λ h. omega (arith, h.0, h.1), λ h. omega (arith, h)),
)
