-- ===== src/Repositories/Pages.antt =====
-- packages/ledger/repositories.py: the pages of a tenant's receipts, by cursor and by offset.
use forensa.Prelude.{
  ℕ, zero, suc, ◌+◌, ◌<◌, String, ◌≡◌, refl, sym, ap, ◌∙◌, subst, none, some, List, [], ◌∷◌, map,
  length, filter, take, drop, sort_desc, All, Result, ok, arith, nat_eq,
}
use forensa.Ledger.{Db, Receipt, ReceiptRow}
use forensa.Repositories
use forensa.Repositories.Linked.{Linked, Linked-below, Linked-sorted}

abbrev before : ℕ → List ReceiptRow → List ReceiptRow
before b = filter (λ (r : ReceiptRow). Repositories.below (some b) r.receipt.sequence)

filter-unbounded :
    (rows : List ReceiptRow) → filter (Repositories.signed_within none none) rows ≡ rows
filter-unbounded [] = refl
filter-unbounded (r ∷ rows) = ap (λ rs. r ∷ rs) (filter-unbounded rows)

filter-below :
    (b : ℕ) (rows : List ReceiptRow)
    → All (λ (q : ReceiptRow). q.receipt.sequence < b) rows
    → before b rows ≡ rows
filter-below b [] h = refl
filter-below b (r ∷ rows) h = ground (arith, h.0, filter-below b rows h.1)

module _ (sha256 : List ℕ → String) where
  Linked-drop :
      (tenant k : ℕ) (rows : List ReceiptRow)
      → Linked sha256 tenant rows
      → Linked sha256 tenant (drop k rows)
  Linked-drop tenant zero rows l = l
  Linked-drop tenant (suc k) [] l = tt
  Linked-drop tenant (suc k) (r ∷ rows) l = Linked-drop tenant k rows l.4

  -- The rows before a cursor are the rows after as many as the cursor leaves out.
  before-drop :
      (tenant k b : ℕ) (rows : List ReceiptRow)
      → Linked sha256 tenant rows
      → b + k ≡ length rows
      → before b rows ≡ drop k rows
  before-drop tenant zero b rows l e = filter-below b rows (
      subst (λ n. All (λ (q : ReceiptRow). q.receipt.sequence < n) rows) (omega (arith, e))
        (Linked-below sha256 tenant rows l))
  before-drop tenant (suc k) b [] l e = refl
  before-drop tenant (suc k) b (r ∷ rows) l e =
      ground (arith, e, l.0, before-drop tenant k b rows l.4 (omega (arith, e)))

  -- Where the receipts of a tenant are linked, the page before a cursor is the page at the
  -- offset that the cursor leaves out, when neither is bounded by a time of signing; it holds
  -- the receipts after that offset, newest first, up to the limit.
  pub list_receipts_for_tenant_cursor-offset :
      (tenant limit offset cursor : ℕ) (db : Db)
      → Linked sha256 tenant (Repositories.of_tenant tenant db.receipts)
      → cursor + offset ≡ length (Repositories.of_tenant tenant db.receipts)
      → (Repositories.list_receipts_for_tenant_cursor tenant limit (some cursor) none none db
          ≡ Repositories.list_receipts_for_tenant tenant limit offset none none db)
        × (Repositories.list_receipts_for_tenant tenant limit offset none none db ≡ (
          ok (
              map Repositories.receipt_of
                (take limit (drop offset (Repositories.of_tenant tenant db.receipts)))),
          db,
        ))
  unfolding Repositories.list_receipts_for_tenant_cursor Repositories.list_receipts_for_tenant
  list_receipts_for_tenant_cursor-offset tenant limit offset cursor db l e =
      let rows = Repositories.of_tenant tenant db.receipts in
      let left = drop offset rows in
      let by_cursor : page (
            sort_desc Repositories.sequence_of
              (filter (Repositories.signed_within none none) (before cursor rows)))
          ≡ page left =
        ap (λ rs. page (sort_desc Repositories.sequence_of rs))
          (filter-unbounded (before cursor rows) ∙ before-drop tenant offset cursor rows l e)
        ∙ ap page (Linked-sorted sha256 tenant left (Linked-drop tenant offset rows l)) in
      let by_offset : page (
            drop offset (
              sort_desc Repositories.sequence_of
                (filter (Repositories.signed_within none none) rows)))
          ≡ page left =
        ap (λ rs. page (drop offset (sort_desc Repositories.sequence_of rs)))
          (filter-unbounded rows)
        ∙ ap (λ rs. page (drop offset rs)) (Linked-sorted sha256 tenant rows l) in
      (by_cursor ∙ sym by_offset, by_offset)
    where
      page : List ReceiptRow → Result (List Receipt) × Db
      page rs = (ok (map Repositories.receipt_of (take limit rs)), db)
