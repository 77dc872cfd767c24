-- ===== src/Repositories/Keys.antt =====
-- packages/ledger/models.py: what the keys and the constraints of the three tables allow.
use forensa.Prelude.{
  ℕ, ◌≡◌, ◌≢◌, ◌⊎◌, inl, inr, true, List, [], ◌∷◌, All, arith, nat_eq, string_eq, ◌==◌, eq_iff,
  Bool-cases, nat_beq_iff,
}
use forensa.Ledger.{Db, BundleRow, SnapshotRow, Event, PolicySnapshot, Receipt, ReceiptRow}
use forensa.Repositories

-- A receipt differs from the row in its id, its hash, and its tenant or its number.
abbrev pub Differs : Receipt → ReceiptRow → Type 0
Differs r q =
    (q.receipt.id ≢ r.id)
    × (q.receipt.receipt_hash ≢ r.receipt_hash)
    × ((q.receipt.tenant_id ≢ r.tenant_id) ⊎ (q.receipt.sequence ≢ r.sequence))

abbrev pub HasBundle : ℕ → List BundleRow → Type 0
HasBundle id [] = ⊥
HasBundle id (b ∷ bundles) = (b.bundle.id ≡ id) ⊎ HasBundle id bundles

-- The ids are new, the receipt is new by each of its keys, and the bundle of the snapshot is there.
pub record Fits (event : Event) (snapshot : PolicySnapshot) (r : Receipt) (snapshot_id : ℕ)
    (db : Db) : Type 0 where
  pub new_snapshot : All (λ (s : SnapshotRow). s.id ≢ snapshot_id) db.snapshots
  pub new_event : All (λ (e : Event). e.id ≢ event.id) db.events
  pub new_receipt : All (Differs r) db.receipts
  pub bundle : HasBundle snapshot.policy_bundle_id db.bundles

is_new_snapshot-All :
    (id : ℕ) (rows : List SnapshotRow)
    → Repositories.is_new_snapshot id rows ≡ true
    → All (λ (s : SnapshotRow). s.id ≢ id) rows
unfolding Repositories.is_new_snapshot
is_new_snapshot-All id [] h = tt
is_new_snapshot-All id (s ∷ rows) h =
    (λ e. ground (arith, h, e), is_new_snapshot-All id rows (ground (arith, h)))

is_new_event-All :
    (id : ℕ) (rows : List Event)
    → Repositories.is_new_event id rows ≡ true
    → All (λ (e : Event). e.id ≢ id) rows
unfolding Repositories.is_new_event
is_new_event-All id [] h = tt
is_new_event-All id (s ∷ rows) h =
    (λ e. ground (arith, h, e), is_new_event-All id rows (ground (arith, h)))

is_new_receipt-All :
    (r : Receipt) (rows : List ReceiptRow)
    → Repositories.is_new_receipt r rows ≡ true
    → All (Differs r) rows
unfolding Repositories.is_new_receipt
is_new_receipt-All r [] h = tt
is_new_receipt-All r (q ∷ rows) h = (
  (
    λ e. ground (arith, h, e),
    λ e. ground (arith, h, (eq_iff q.receipt.receipt_hash r.receipt_hash).1 e),
    elim (Bool-cases (q.receipt.tenant_id == r.tenant_id)) [
      | inl mine ↦ inr (λ e. ground (arith, h, mine, e))
      | inr other ↦ inl (λ e. ground (arith, other, e))
    ],
  ),
  is_new_receipt-All r rows (ground (arith, h)),
)

bundle_exists-HasBundle :
    (id : ℕ) (rows : List BundleRow) → Repositories.bundle_exists id rows ≡ true → HasBundle id rows
unfolding Repositories.bundle_exists
bundle_exists-HasBundle id [] h = cc h
bundle_exists-HasBundle id (b ∷ rows) h = elim (Bool-cases (b.bundle.id == id)) [
  | inl is ↦ inl ((nat_beq_iff b.bundle.id id).0 is)
  | inr other ↦ inr (bundle_exists-HasBundle id rows (ground (arith, h, other)))
]

pub allowed_triple-Fits :
    (event : Event) (snapshot : PolicySnapshot) (r : Receipt) (snapshot_id : ℕ) (db : Db)
    → Repositories.allowed_triple event snapshot r snapshot_id db ≡ true
    → Fits event snapshot r snapshot_id db
unfolding Repositories.allowed_triple
allowed_triple-Fits event snapshot r snapshot_id db h = record {
  new_snapshot = is_new_snapshot-All snapshot_id db.snapshots (ground (arith, h));
  new_event = is_new_event-All event.id db.events (ground (arith, h));
  new_receipt = is_new_receipt-All r db.receipts (ground (arith, h));
  bundle = bundle_exists-HasBundle snapshot.policy_bundle_id db.bundles (ground (arith, h));
}
