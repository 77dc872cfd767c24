-- ===== src/Workflow/Keys.antt =====
-- Look-ups by primary key, and how a change of status shows in them.
use forensa.Prelude.{
  ℕ, ◌≡◌, ◌↔◌, refl, sym, subst, true, Option, none, some, List, [], ◌∷◌, arith, if◌then◌else◌,
  ◌==◌, nat_eq,
}
use forensa.Ledger.{BundleRow, BundleStatus, active}
use forensa.Workflow.{find_bundle, set_status, active_bundles, status_beq}

-- No two rows have one key.
abbrev pub Keyed : List BundleRow → Type 0
Keyed [] = Unit
Keyed (b ∷ bs) = (find_bundle b.bundle.id bs ≡ none) × Keyed bs

pub find_bundle_id :
    (id : ℕ) (bs : List BundleRow) {b : BundleRow} → find_bundle id bs ≡ some b → b.bundle.id ≡ id
unfolding find_bundle
find_bundle_id id [] h = cc
find_bundle_id id (r ∷ bs) {b} h = ground (arith, find_bundle_id id bs {b = b})

pub find_bundle_self :
    (id : ℕ) (bs : List BundleRow) {b : BundleRow}
    → find_bundle id bs ≡ some b
    → find_bundle b.bundle.id bs ≡ some b
find_bundle_self id bs {b} h =
    subst (λ i. find_bundle i bs ≡ some b) (sym (find_bundle_id id bs h)) h

abbrev pub restatus : ℕ → BundleStatus → Option BundleRow → Option BundleRow
restatus id status none = none
restatus id status (some b) = some (if b.bundle.id == id then record b { status = status } else b)

pub find_bundle-set_status :
    (j id : ℕ) (status : BundleStatus) (bs : List BundleRow)
    → find_bundle j (set_status id status bs) ≡ restatus id status (find_bundle j bs)
unfolding find_bundle set_status
find_bundle-set_status j id status [] = refl
find_bundle-set_status j id status (b ∷ bs) = ground (arith, find_bundle-set_status j id status bs)

pub set_status-Keyed :
    (id : ℕ) (status : BundleStatus) (bs : List BundleRow)
    → Keyed bs
    → Keyed (set_status id status bs)
unfolding set_status
set_status-Keyed id status [] k = tt
set_status-Keyed id status (b ∷ bs) k =
    ground
      (arith, set_status-Keyed id status bs k.1, find_bundle-set_status b.bundle.id id status bs)

pub status_beq_iff : (s t : BundleStatus) → (status_beq s t ≡ true) ↔ (s ≡ t)
status_beq_iff s t = ground arith

-- A row that an active query returns is the row of its key, is active and is the tenant's.
pub active_bundles_first :
    (tenant : ℕ) (bs : List BundleRow) (p : BundleRow) (rest : List BundleRow)
    → Keyed bs
    → active_bundles tenant bs ≡ p ∷ rest
    → (find_bundle p.bundle.id bs ≡ some p) × (p.status ≡ active) × (p.bundle.tenant_id ≡ tenant)
unfolding active_bundles find_bundle
active_bundles_first tenant [] p rest k h = cc
active_bundles_first tenant (b ∷ bs) p rest k h =
    ground (arith, active_bundles_first tenant bs p rest k.1, status_beq_iff b.status active)
