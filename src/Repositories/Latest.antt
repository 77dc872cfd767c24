-- ===== src/Repositories/Latest.antt =====
-- packages/ledger/repositories.py: which receipt of a tenant is the latest, without the queries.
use forensa.Prelude.{
  ℕ, ◌≤◌, ◌≡◌, ◌≢◌, ◌⊎◌, inl, inr, refl, sym, subst, ◌∙◌, Option, none, some, List, [], ◌∷◌, All,
  take, insert_desc, sort_desc, ok, arith, nat_eq, ◌==◌, Bool, true, false, if◌then◌else◌, leb,
}
use forensa.Ledger.{Db, Receipt, ReceiptRow}
use forensa.Repositories

abbrev pub IsIn : Receipt → List ReceiptRow → Type 0
IsIn r [] = ⊥
IsIn r (q ∷ rows) = (q.receipt ≡ r) ⊎ IsIn r rows

-- The receipt of the tenant with the greatest number, if the tenant has one.
abbrev pub IsLatest : ℕ → List ReceiptRow → Option Receipt → Type 0
IsLatest tenant rows none = All (λ (q : ReceiptRow). q.receipt.tenant_id ≢ tenant) rows
IsLatest tenant rows (some r) =
    IsIn r rows
    × (r.tenant_id ≡ tenant)
    × All (λ (q : ReceiptRow). (q.receipt.tenant_id ≢ tenant) ⊎ (q.receipt.sequence ≤ r.sequence))
        rows

abbrev first_receipt : List ReceiptRow → Option Receipt
first_receipt rows = Repositories.option_map Repositories.receipt_of (Repositories.first_row rows)

All-other :
    (tenant n : ℕ) (rows : List ReceiptRow)
    → All (λ (q : ReceiptRow). q.receipt.tenant_id ≢ tenant) rows
    → All (λ (q : ReceiptRow). (q.receipt.tenant_id ≢ tenant) ⊎ (q.receipt.sequence ≤ n)) rows
All-other tenant n [] h = tt
All-other tenant n (q ∷ rows) (other, h) = (inl other, All-other tenant n rows h)

All-raise :
    (tenant m n : ℕ) (rows : List ReceiptRow)
    → m ≤ n
    → All (λ (q : ReceiptRow). (q.receipt.tenant_id ≢ tenant) ⊎ (q.receipt.sequence ≤ m)) rows
    → All (λ (q : ReceiptRow). (q.receipt.tenant_id ≢ tenant) ⊎ (q.receipt.sequence ≤ n)) rows
All-raise tenant m n [] le h = tt
All-raise tenant m n (q ∷ rows) le (inl other, h) = (inl other, All-raise tenant m n rows le h)
All-raise tenant m n (q ∷ rows) le (inr low, h) =
    (inr (omega (arith, low, le)), All-raise tenant m n rows le h)

insert_desc-IsLatest :
    (tenant : ℕ) (r : ReceiptRow) (rows sorted : List ReceiptRow)
    → r.receipt.tenant_id ≡ tenant
    → IsLatest tenant rows (first_receipt sorted)
    → IsLatest tenant (r ∷ rows) (first_receipt (insert_desc Repositories.sequence_of r sorted))
insert_desc-IsLatest tenant r rows [] mine h =
    (inl refl, mine, (inr (omega arith), All-other tenant r.receipt.sequence rows h))
insert_desc-IsLatest tenant r rows (q ∷ sorted) mine (there, of_tenant, low) =
    of_test (leb q.receipt.sequence r.receipt.sequence) refl
  where
    of_test :
        (b : Bool)
        → leb q.receipt.sequence r.receipt.sequence ≡ b
        → IsLatest tenant (r ∷ rows) (
            first_receipt
              (if b then r ∷ q ∷ sorted else q ∷ insert_desc Repositories.sequence_of r sorted))
    of_test true le = (
      inl refl,
      mine,
      (
        inr (omega arith),
        All-raise tenant q.receipt.sequence r.receipt.sequence rows (ground (arith, le)) low,
      ),
    )
    of_test false gt = (inr there, of_tenant, (inr (ground (arith, gt)), low))

other-IsLatest :
    (tenant : ℕ) (r : ReceiptRow) (rows : List ReceiptRow) (o : Option Receipt)
    → r.receipt.tenant_id ≢ tenant
    → IsLatest tenant rows o
    → IsLatest tenant (r ∷ rows) o
other-IsLatest tenant r rows none other h = (other, h)
other-IsLatest tenant r rows (some q) other (there, of_tenant, low) =
    (inr there, of_tenant, (inl other, low))

sort_desc-IsLatest :
    (tenant : ℕ) (rows : List ReceiptRow)
    → IsLatest tenant rows
        (first_receipt (sort_desc Repositories.sequence_of (Repositories.of_tenant tenant rows)))
sort_desc-IsLatest tenant [] = tt
sort_desc-IsLatest tenant (r ∷ rows) =
    of_test (r.receipt.tenant_id == tenant) refl (sort_desc-IsLatest tenant rows)
  where
    mine : List ReceiptRow
    mine = Repositories.of_tenant tenant rows

    of_test :
        (b : Bool)
        → (r.receipt.tenant_id == tenant) ≡ b
        → IsLatest tenant rows (first_receipt (sort_desc Repositories.sequence_of mine))
        → IsLatest tenant
            (r ∷ rows)
            (first_receipt (sort_desc Repositories.sequence_of (if b then r ∷ mine else mine)))
    of_test true is h =
        insert_desc-IsLatest tenant r rows (sort_desc Repositories.sequence_of mine)
          ((nat_eq.beq_iff r.receipt.tenant_id tenant).0 is) h
    of_test false other h =
        other-IsLatest tenant r rows (first_receipt (sort_desc Repositories.sequence_of mine))
          (λ e. ground (arith, other, e)) h

first_receipt-take : (rows : List ReceiptRow) → first_receipt (take 1 rows) ≡ first_receipt rows
first_receipt-take [] = refl
first_receipt-take (r ∷ rows) = refl

-- What the query of the latest receipt answers.
pub get_latest_receipt_for_tenant-IsLatest :
    (tenant : ℕ) (db db' : Db) (prev : Option Receipt)
    → Repositories.get_latest_receipt_for_tenant tenant db ≡ (ok prev, db')
    → IsLatest tenant db.receipts prev
unfolding Repositories.get_latest_receipt_for_tenant
get_latest_receipt_for_tenant-IsLatest tenant db db' prev h =
    let sorted = sort_desc Repositories.sequence_of (Repositories.of_tenant tenant db.receipts) in
    let answer : first_receipt (take 1 sorted) ≡ prev = cc h in
    subst (IsLatest tenant db.receipts) (sym (first_receipt-take sorted) ∙ answer)
      (sort_desc-IsLatest tenant db.receipts)
