-- ===== src/Repositories.antt =====
-- packages/ledger/repositories.py: events, snapshots and receipts in the tables.
-- The foreign keys to tenants and agents are not modelled, for those tables are not.
pub mod Linked
pub mod Pages
pub mod Latest
pub mod Keys
use Prim.Native.String.{◌++◌}
use forensa.Prelude.{
  ℕ, String, Bool, true, false, not, ◌&&◌, ◌||◌, Option, none, some, List, [], ◌∷◌, map, length,
  take, drop, filter, sort_asc, sort_desc, leb, ltb, if◌then◌else◌, ◌==◌, ◌!=◌, nat_eq, string_eq,
  value_error, uuid_str,
}
use forensa.Hash.{Value}
use forensa.Ledger.{Db, BundleRow, PolicySnapshot, SnapshotRow, Event, Receipt, ReceiptRow}
use forensa.Ledger.Exec.{Exec, pure, gets, flush, raise_if, ◌>>=◌, ◌>>◌}

unfoldable pub is_new_snapshot : ℕ → List SnapshotRow → Bool
is_new_snapshot id [] = true
is_new_snapshot id (s ∷ ss) = not (s.id == id) && is_new_snapshot id ss

unfoldable pub is_new_event : ℕ → List Event → Bool
is_new_event id [] = true
is_new_event id (e ∷ es) = not (e.id == id) && is_new_event id es

-- The primary key, `uq_receipts_tenant_sequence`, and the unique `receipt_hash`.
unfoldable pub is_new_receipt : Receipt → List ReceiptRow → Bool
is_new_receipt r [] = true
is_new_receipt r (q ∷ qs) =
    not (
      q.receipt.id == r.id
      || (q.receipt.tenant_id == r.tenant_id && q.receipt.sequence == r.sequence)
      || q.receipt.receipt_hash == r.receipt_hash)
    && is_new_receipt r qs

unfoldable pub bundle_exists : ℕ → List BundleRow → Bool
bundle_exists id [] = false
bundle_exists id (b ∷ bs) = b.bundle.id == id || bundle_exists id bs

-- The constraints on the three rows.
unfoldable pub allowed_triple : Event → PolicySnapshot → Receipt → ℕ → Db → Bool
allowed_triple event snapshot receipt snapshot_id db =
    is_new_snapshot snapshot_id db.snapshots
    && is_new_event event.id db.events
    && is_new_receipt receipt db.receipts
    && bundle_exists snapshot.policy_bundle_id db.bundles

abbrev pub with_triple : Event → PolicySnapshot → Receipt → ℕ → Db → Db
with_triple event snapshot receipt snapshot_id db = record db {
  snapshots =
      record { id = snapshot_id; tenant_id = event.tenant_id; snapshot = snapshot } ∷ db.snapshots;
  events = event ∷ db.events;
  receipts = record { receipt = receipt; policy_snapshot_id = snapshot_id } ∷ db.receipts;
}

unfoldable pub flush_triple : Event → PolicySnapshot → Receipt → ℕ → Exec (Unit {0})
flush_triple event snapshot receipt snapshot_id =
    flush (allowed_triple event snapshot receipt snapshot_id)
      (with_triple event snapshot receipt snapshot_id)

-- `snapshot_id` is the caller's, or the id that `uuid4()` draws where the caller gives none.
unfoldable pub write_event_with_receipt : Event → PolicySnapshot → Receipt → ℕ → Exec ℕ
write_event_with_receipt event snapshot receipt snapshot_id = do
  raise_if (receipt.policy_bundle_id != snapshot.policy_bundle_id) value_error
  raise_if (receipt.tenant_id != event.tenant_id) value_error
  raise_if (receipt.event_id != event.id) value_error
  flush_triple event snapshot receipt snapshot_id
  pure snapshot_id

abbrev in_scope : Option ℕ → ReceiptRow → Bool
in_scope none r = true
in_scope (some t) r = r.receipt.tenant_id == t

abbrev pub first_row {ℓ} : {A : Type ℓ} → List A → Option A
first_row [] = none
first_row (a ∷ rest) = some a

abbrev pub with_snapshot : ReceiptRow → Receipt × ℕ
with_snapshot r = (r.receipt, r.policy_snapshot_id)

abbrev pub receipt_of : ReceiptRow → Receipt
receipt_of r = r.receipt

abbrev pub option_map {ℓ κ} : {A : Type ℓ} {B : Type κ} → (A → B) → Option A → Option B
option_map f none = none
option_map f (some a) = some (f a)

unfoldable pub get_receipt_by_id : ℕ → Option ℕ → Exec (Option (Receipt × ℕ))
get_receipt_by_id receipt_id tenant = gets (λ db. option_map with_snapshot (
    first_row (
      take 1 (
        filter (λ (r : ReceiptRow). r.receipt.id == receipt_id && in_scope tenant r) db.receipts))))

-- An optional bound of a query, from below and from above, and a strict one.
abbrev pub at_least : Option ℕ → ℕ → Bool
at_least none n = true
at_least (some b) n = leb b n

abbrev pub at_most : Option ℕ → ℕ → Bool
at_most none n = true
at_most (some b) n = leb n b

abbrev pub below : Option ℕ → ℕ → Bool
below none n = true
below (some b) n = ltb n b

abbrev pub sequence_of : ReceiptRow → ℕ
sequence_of r = r.receipt.sequence

abbrev pub of_tenant : ℕ → List ReceiptRow → List ReceiptRow
of_tenant tenant = filter (λ (r : ReceiptRow). r.receipt.tenant_id == tenant)

abbrev pub signed_within : Option ℕ → Option ℕ → ReceiptRow → Bool
signed_within after before r =
    at_least after r.receipt.signed_at && at_most before r.receipt.signed_at

unfoldable pub list_receipts_for_tenant : ℕ → ℕ → ℕ → Option ℕ → Option ℕ → Exec (List Receipt)
list_receipts_for_tenant tenant limit offset after before = gets (λ db. map receipt_of (
    take limit (
      drop offset (
        sort_desc sequence_of
          (filter (signed_within after before) (of_tenant tenant db.receipts))))))

unfoldable pub list_receipts_for_tenant_cursor :
    ℕ → ℕ → Option ℕ → Option ℕ → Option ℕ → Exec (List Receipt)
list_receipts_for_tenant_cursor tenant limit before_sequence after before = gets (λ db.
    map receipt_of (
      take limit (
        sort_desc sequence_of (
          filter (signed_within after before) (
            filter (λ (r : ReceiptRow). below before_sequence r.receipt.sequence)
              (of_tenant tenant db.receipts))))))

unfoldable pub list_receipts_with_snapshot_for_tenant : ℕ → ℕ → ℕ → ℕ → Exec (List (Receipt × ℕ))
list_receipts_with_snapshot_for_tenant tenant scope_start scope_end limit = gets (λ db.
    map with_snapshot (
      take limit (
        sort_asc sequence_of (
          filter (signed_within (some scope_start) (some scope_end))
            (of_tenant tenant db.receipts)))))

unfoldable pub get_latest_receipt_for_tenant : ℕ → Exec (Option Receipt)
get_latest_receipt_for_tenant tenant = gets (λ db.
    option_map receipt_of
      (first_row (take 1 (sort_desc sequence_of (of_tenant tenant db.receipts)))))

unfoldable pub list_event_payloads_for_tenant_window : ℕ → ℕ → ℕ → ℕ → Exec (List (String × Value))
list_event_payloads_for_tenant_window tenant occurred_after occurred_before limit = gets (λ db.
    map (λ (e : Event). ("event_" ++ uuid_str e.id, e.payload))
      (take limit (
        sort_asc (λ (e : Event). e.occurred_at)
          (filter
            (λ (e : Event).
              e.tenant_id == tenant
              && leb occurred_after e.occurred_at
              && leb e.occurred_at occurred_before)
            db.events))))
