-- ===== src/Repositories/Linked.antt =====
-- packages/ledger/repositories.py: a tenant's receipts as a hash chain, the newest first.
use forensa.Prelude.{
  ℕ, suc, ◌<◌, ◌≤◌, String, ◌≡◌, refl, sym, ap, ◌∙◌, subst, Option, none, some, List, [], ◌∷◌,
  length, insert_desc, sort_desc, All, take, Result, ok, arith, nat_eq,
}
use forensa.Ledger.{Db, Receipt, ReceiptRow}
use forensa.Receipts.{recompute_receipt_hash}
use forensa.Receipts.Build.{IsNext}
use forensa.Repositories

abbrev pub head_receipt : List ReceiptRow → Option Receipt
head_receipt [] = none
head_receipt (r ∷ rs) = some r.receipt

-- Each receipt is the tenant's, has the number of the receipts before it, links to the one before it
-- and recomputes.
abbrev pub Linked : (List ℕ → String) → ℕ → List ReceiptRow → Type 0
Linked sha256 tenant [] = Unit
Linked sha256 tenant (r ∷ rs) =
    (r.receipt.sequence ≡ length rs)
    × (r.receipt.tenant_id ≡ tenant)
    × IsNext tenant (head_receipt rs) r.receipt
    × (recompute_receipt_hash sha256 r.receipt r.policy_snapshot_id ≡ ok r.receipt.receipt_hash)
    × Linked sha256 tenant rs

pub insert_desc-first :
    (r : ReceiptRow) (rs : List ReceiptRow)
    → All (λ (q : ReceiptRow). q.receipt.sequence < r.receipt.sequence) rs
    → insert_desc Repositories.sequence_of r rs ≡ r ∷ rs
insert_desc-first r [] h = refl
insert_desc-first r (q ∷ rs) h = ground (arith, h.0)

pub All-mono :
    (m n : ℕ) (rs : List ReceiptRow)
    → m ≤ n
    → All (λ (q : ReceiptRow). q.receipt.sequence < m) rs
    → All (λ (q : ReceiptRow). q.receipt.sequence < n) rs
All-mono m n [] le h = tt
All-mono m n (r ∷ rs) le h = (omega (arith, h.0, le), All-mono m n rs le h.1)

module _ (sha256 : List ℕ → String) where
  pub Linked-below :
      (tenant : ℕ) (rs : List ReceiptRow)
      → Linked sha256 tenant rs
      → All (λ (q : ReceiptRow). q.receipt.sequence < length rs) rs
  Linked-below tenant [] h = tt
  Linked-below tenant (r ∷ rs) h = (
    omega (arith, h.0),
    All-mono (length rs) (suc (length rs)) rs (omega arith) (Linked-below tenant rs h.4),
  )

  -- A linked table is in the order of the queries.
  pub Linked-sorted :
      (tenant : ℕ) (rs : List ReceiptRow)
      → Linked sha256 tenant rs
      → sort_desc Repositories.sequence_of rs ≡ rs
  Linked-sorted tenant [] h = refl
  Linked-sorted tenant (r ∷ rs) h =
      ap (insert_desc Repositories.sequence_of r) (Linked-sorted tenant rs h.4)
      ∙ insert_desc-first r rs (
          subst (λ n. All (λ (q : ReceiptRow). q.receipt.sequence < n) rs) (sym h.0)
            (Linked-below tenant rs h.4))

  -- Where the receipts of a tenant are linked, the query of the latest receipt answers the one
  -- that was written last.
  pub get_latest-head :
      (tenant : ℕ) (db : Db)
      → Linked sha256 tenant (Repositories.of_tenant tenant db.receipts)
      → Repositories.get_latest_receipt_for_tenant tenant db
        ≡ (ok (head_receipt (Repositories.of_tenant tenant db.receipts)), db)
  unfolding Repositories.get_latest_receipt_for_tenant
  get_latest-head tenant db h =
      ap answer (Linked-sorted tenant (Repositories.of_tenant tenant db.receipts) h)
      ∙ of_head (Repositories.of_tenant tenant db.receipts)
    where
      answer : List ReceiptRow → Result (Option Receipt) × Db
      answer rs = (
        ok (Repositories.option_map Repositories.receipt_of (Repositories.first_row (take 1 rs))),
        db,
      )

      of_head : (rs : List ReceiptRow) → answer rs ≡ (ok (head_receipt rs), db)
      of_head [] = refl
      of_head (r ∷ rs) = refl
