-- ===== src/Anchors/Proof.antt =====
-- packages/ledger/anchor.py: what `verify_receipt_anchored_in` decides, and the receipts that the anchor
-- of a day proves.
use forensa.Prelude.{
  ℕ, ◌≤◌, ◌<◌, String, Bool, true, false, Option, none, some, List, [], ◌∷◌, ◌++◌, All, filter,
  take, sort_desc, insert_desc, ◌≡◌, refl, sym, ap, ◌∙◌, subst, ◌⊎◌, inl, inr, ◌↔◌, if◌then◌else◌,
  nat_eq, string_eq, option_eq, option_beq_iff, ok, arith, eq_iff,
}
use forensa.Ledger.{Db, Receipt, ReceiptRow}
use forensa.Repositories
use forensa.Repositories.Linked.{Linked, insert_desc-first, Linked-below}
use forensa.Anchors
use forensa.Anchors.{AnchorRow, AnchorCall, AnchorResult, AnchorStatus, aware, anchored, deferred}
use forensa.Anchors.Table.{IsSound}
use forensa.Anchors.Runs.{
  bounds_of, new_row, midnight, result_for, anchor_day-found, row_for_day-key,
}

-- Receipts that link, each to the one before it, from a hash to a root.
abbrev pub Chain : String → List Receipt → String → Type 0
Chain h [] root = h ≡ root
Chain h (q ∷ qs) root = (q.prev_receipt_hash ≡ some h) × Chain q.receipt_hash qs root

-- What makes a receipt anchored by a row.
pub record IsProof (r : Receipt) (a : AnchorRow) (between : List Receipt) : Type 0 where
  pub root : String
  pub at : ℕ
  pub status_is : a.status ≡ anchored
  pub root_is : a.root_hash ≡ some root
  pub at_is : a.timestamped_at ≡ some at
  pub in_time : r.signed_at ≤ at
  pub of_tenant : r.tenant_id ≡ a.tenant_id
  pub chain : Chain r.receipt_hash between root

linked-Chain :
    (q : Receipt) (qs : List Receipt) (root : String)
    → (Anchors.are_linked q qs ≡ true) × (Anchors.last_hash q qs ≡ root)
      ↔ Chain q.receipt_hash qs root
unfolding Anchors.are_linked Anchors.last_hash
linked-Chain q [] root = (λ h. h.1, λ h. (refl, h))
linked-Chain q (p ∷ qs) root =
    let ih = linked-Chain p qs root in
    let e = option_beq_iff p.prev_receipt_hash (some q.receipt_hash) in
    (
      λ h. (ground (arith, h.0, e.0), ih.0 (ground (arith, h.0), h.1)),
      λ h. (ground (arith, e.1 h.0, (ih.1 h.1).0), (ih.1 h.1).1),
    )

pub chain_walk-Chain :
    (r : Receipt) (between : List Receipt) (root : String)
    → (Anchors.chain_walk r between root ≡ true) ↔ Chain r.receipt_hash between root
unfolding Anchors.chain_walk
chain_walk-Chain r [] root = eq_iff r.receipt_hash root
chain_walk-Chain r (q ∷ qs) root =
    let e = option_beq_iff q.prev_receipt_hash (some r.receipt_hash) in
    let c = linked-Chain q qs root in
    let l = eq_iff (Anchors.last_hash q qs) root in
    (
      λ h. (ground (arith, h, e.0), c.0 (ground (arith, h), l.0 (ground (arith, h)))),
      λ h. ground (arith, e.1 h.0, (c.1 h.1).0, l.1 (c.1 h.1).1),
    )

-- The verifier accepts exactly the proofs.
pub verify-IsProof :
    (r : Receipt) (a : AnchorRow) (between : List Receipt)
    → (Anchors.verify_receipt_anchored_in r a between ≡ true) ↔ IsProof r a between
unfolding Anchors.verify_receipt_anchored_in
verify-IsProof r a between = (to a.status a.root_hash a.timestamped_at refl refl refl, from)
  where
    to :
        (s : AnchorStatus) (root : Option String) (at : Option ℕ)
        → a.status ≡ s
        → a.root_hash ≡ root
        → a.timestamped_at ≡ at
        → Anchors.verify_receipt_anchored_in r a between ≡ true
        → IsProof r a between
    to deferred root at s f t h = ground (arith, s, h)
    to anchored none at s f t h = ground (arith, s, f, h)
    to anchored (some root) none s f t h = ground (arith, s, f, t, h)
    to anchored (some root) (some at) s f t h = record {
      root = root;
      at = at;
      status_is = s;
      root_is = f;
      at_is = t;
      in_time = ground (arith, s, f, t, h);
      of_tenant = ground (arith, s, f, t, h);
      chain = (chain_walk-Chain r between root).0 (ground (arith, s, f, t, h));
    }

    from : IsProof r a between → Anchors.verify_receipt_anchored_in r a between ≡ true
    from p = ground (
      arith,
      p.status_is,
      p.root_is,
      p.at_is,
      p.in_time,
      p.of_tenant,
      (chain_walk-Chain r between p.root).1 p.chain,
    )

-- A row of a table.
abbrev pub IsRow : ReceiptRow → List ReceiptRow → Type 0
IsRow r [] = ⊥
IsRow r (q ∷ qs) = (q ≡ r) ⊎ IsRow r qs

Chain-append :
    (h : String) (between : List Receipt) (mid : String) (q : Receipt)
    → Chain h between mid
    → q.prev_receipt_hash ≡ some mid
    → Chain h (between ++ q ∷ []) q.receipt_hash
Chain-append h [] mid q c l = (cc (c, l), refl)
Chain-append h (p ∷ between) mid q c l = (c.0, Chain-append p.receipt_hash between mid q c.1 l)

All-filter :
    (n : ℕ) (p : ReceiptRow → Bool) (rs : List ReceiptRow)
    → All (λ (q : ReceiptRow). q.receipt.sequence < n) rs
    → All (λ (q : ReceiptRow). q.receipt.sequence < n) (filter p rs)
All-filter n p [] h = tt
All-filter n p (r ∷ rs) h = of_answer (p r) (All-filter n p rs h.1)
  where
    of_answer :
        (b : Bool)
        → All (λ (q : ReceiptRow). q.receipt.sequence < n) (filter p rs)
        → All
            (λ (q : ReceiptRow). q.receipt.sequence < n)
            (if b then r ∷ filter p rs else filter p rs)
    of_answer true f = (h.0, f)
    of_answer false f = f

-- Each is the receipt of a row.
abbrev pub AreReceipts : List Receipt → List ReceiptRow → Type 0
AreReceipts between rows =
    All (λ (q : Receipt). (row : ReceiptRow) × (row.receipt ≡ q) × IsRow row rows) between

AreReceipts-more :
    (between : List Receipt) (q : ReceiptRow) (rows : List ReceiptRow)
    → AreReceipts between rows
    → AreReceipts between (q ∷ rows)
AreReceipts-more [] q rows h = tt
AreReceipts-more (p ∷ ps) q rows ((row, e, m), h) = ((row, e, inr m), AreReceipts-more ps q rows h)

AreReceipts-append :
    (between : List Receipt) (q : ReceiptRow) (rows : List ReceiptRow)
    → AreReceipts between rows
    → AreReceipts (between ++ q.receipt ∷ []) (q ∷ rows)
AreReceipts-append [] q rows h = ((q, refl, inl refl), tt)
AreReceipts-append (p ∷ ps) q rows ((row, e, m), h) =
    ((row, e, inr m), AreReceipts-append ps q rows h)

module _ (sha256 : List ℕ → String) (tenant : ℕ) where
  -- The rows that a query keeps of a linked table are in its order.
  filter-sorted :
      (p : ReceiptRow → Bool) (rs : List ReceiptRow)
      → Linked sha256 tenant rs
      → sort_desc Repositories.sequence_of (filter p rs) ≡ filter p rs
  filter-sorted p [] l = refl
  filter-sorted p (r ∷ rs) l = of_answer (p r) (filter-sorted p rs l.4)
    where
      below : All (λ (q : ReceiptRow). q.receipt.sequence < r.receipt.sequence) (filter p rs)
      below =
          subst (λ n. All (λ (q : ReceiptRow). q.receipt.sequence < n) (filter p rs)) (sym l.0)
            (All-filter _ p rs (Linked-below sha256 tenant rs l.4))

      of_answer :
          (b : Bool)
          → sort_desc Repositories.sequence_of (filter p rs) ≡ filter p rs
          → sort_desc Repositories.sequence_of (if b then r ∷ filter p rs else filter p rs)
            ≡ (if b then r ∷ filter p rs else filter p rs)
      of_answer true e =
          ap (insert_desc Repositories.sequence_of r) e ∙ insert_desc-first r (filter p rs) below
      of_answer false e = e

  link-prev :
      (q : ReceiptRow) (r : ReceiptRow) (rs : List ReceiptRow)
      → Linked sha256 tenant (q ∷ r ∷ rs)
      → q.receipt.prev_receipt_hash ≡ some r.receipt.receipt_hash
  link-prev q r rs l = l.2.2

  -- From any receipt of a linked table there is a chain to the last one.
  climb :
      (q r : ReceiptRow) (rs : List ReceiptRow)
      → Linked sha256 tenant (q ∷ rs)
      → IsRow r (q ∷ rs)
      → (between : List Receipt) × Chain r.receipt.receipt_hash between q.receipt.receipt_hash
        × AreReceipts between (q ∷ rs)
  climb q r rs l (inl e) = ([], cc (e), tt)
  climb q r [] l (inr m) = elim m [ ]
  climb q r (s ∷ rs) l (inr m) =
      let (between, c, are) = climb s r rs l.4 m in
      (
        between ++ q.receipt ∷ [],
        Chain-append r.receipt.receipt_hash between s.receipt.receipt_hash q.receipt c
            (link-prev q s rs l),
        AreReceipts-append between q (s ∷ rs) are,
      )

  filter-IsRow :
      (p : ReceiptRow → Bool) (r : ReceiptRow) (rs : List ReceiptRow)
      → IsRow r (filter p rs)
      → IsRow r rs
  filter-IsRow p r [] m = m
  filter-IsRow p r (q ∷ rs) m = of_answer (p q) (filter-IsRow p r rs) m
    where
      of_answer :
          (b : Bool)
          → (IsRow r (filter p rs) → IsRow r rs)
          → IsRow r (if b then q ∷ filter p rs else filter p rs)
          → (q ≡ r) ⊎ IsRow r rs
      of_answer true later (inl e) = inl e
      of_answer true later (inr m) = inr (later m)
      of_answer false later m = inr (later m)

  -- From any receipt that a query keeps there is a chain to the latest that it keeps.
  climb-filter :
      (p : ReceiptRow → Bool) (r root : ReceiptRow) (rs : List ReceiptRow)
      → Linked sha256 tenant rs
      → IsRow r (filter p rs)
      → Repositories.first_row (filter p rs) ≡ some root
      → (between : List Receipt) × Chain r.receipt.receipt_hash between root.receipt.receipt_hash
        × AreReceipts between rs
  climb-filter p r root [] l m f = elim m [ ]
  climb-filter p r root (q ∷ rs) l m f =
      of_answer (p q) (climb-filter p r root rs l.4) (filter-IsRow p r rs) m f
    where
      of_answer :
          (b : Bool)
          → (IsRow r (filter p rs)
              → Repositories.first_row (filter p rs) ≡ some root
              → (between : List Receipt) × Chain r.receipt.receipt_hash between
                  root.receipt.receipt_hash
                × AreReceipts between rs)
          → (IsRow r (filter p rs) → IsRow r rs)
          → IsRow r (if b then q ∷ filter p rs else filter p rs)
          → Repositories.first_row (if b then q ∷ filter p rs else filter p rs) ≡ some root
          → (between : List Receipt) × Chain r.receipt.receipt_hash between
              root.receipt.receipt_hash
            × AreReceipts between (q ∷ rs)
      of_answer true later kept (inl e) f = ([], cc (e, f), tt)
      of_answer true later kept (inr m) f =
          let (between, c, are) = climb q r rs l (inr (kept m)) in
          (
            between,
            subst (λ (x : ReceiptRow). Chain r.receipt.receipt_hash between x.receipt.receipt_hash)
                {x = q} {y = root} (cc f) c,
            are,
          )
      of_answer false later kept m f =
          let (between, c, are) = later m f in (between, c, AreReceipts-more between q rs are)

  Linked-tenant :
      (r : ReceiptRow) (rs : List ReceiptRow)
      → Linked sha256 tenant rs
      → IsRow r rs
      → r.receipt.tenant_id ≡ tenant
  Linked-tenant r [] l m = elim m [ ]
  Linked-tenant r (q ∷ rs) l (inl e) = cc (e, l.1)
  Linked-tenant r (q ∷ rs) l (inr m) = Linked-tenant r rs l.4 m

first_row-take {ℓ} :
    {A : Type ℓ} (rs : List A) → Repositories.first_row (take 1 rs) ≡ Repositories.first_row rs
first_row-take [] = refl
first_row-take (r ∷ rs) = refl

-- An anchored row holds the hash of the latest receipt.
row_for_day-root :
    (c : AnchorCall) (date : ℕ) (latest : Option ReceiptRow)
    → (Anchors.row_for_day c date latest).status ≡ anchored
    → (root : ReceiptRow) × (latest ≡ some root)
      × ((Anchors.row_for_day c date latest).root_hash ≡ some root.receipt.receipt_hash)
unfolding Anchors.row_for_day
row_for_day-root c date none h = cc h
row_for_day-root c date (some r) h = (r, refl, ground (arith, h))

-- Where the receipts of a tenant are linked and the table of anchors is sound, after an anchoring
-- of a day that was answered as anchored, the lookup of that day finds a row that
-- `verify_receipt_anchored_in` accepts, with receipts of the tenant that are in the table in
-- between, for each receipt that the tenant has signed that day, if it was signed no later than
-- the time stamp.
pub anchor_day-verifies :
    (sha256 : List ℕ → String) (c : AnchorCall) (t : ℕ) (db : Db) (rs rs' : List AnchorRow)
    (res : AnchorResult)
    → IsSound rs
    → Linked sha256 c.tenant_id (Repositories.of_tenant c.tenant_id db.receipts)
    → c.day ≡ aware t
    → Anchors.anchor_day c db rs ≡ ok (res, rs')
    → res.status ≡ anchored
    → (row : AnchorRow) × (Anchors.get_anchor_for_day c.tenant_id c.day rs' ≡ ok (some row))
      × ((r : ReceiptRow) (at : ℕ)
          → IsRow r (Anchors.receipts_of_day c.tenant_id (bounds_of t) db)
          → row.timestamped_at ≡ some at
          → r.receipt.signed_at ≤ at
          → (between : List Receipt) × AreReceipts between
              (Repositories.of_tenant c.tenant_id db.receipts)
            × (Anchors.verify_receipt_anchored_in r.receipt row between ≡ true))
unfolding result_for Anchors.get_latest_receipt_for_day
anchor_day-verifies sha256 c t db rs rs' res s l at h done =
    let (there, e) = anchor_day-found c db rs s t at res rs' h in
    let row = new_row c t db in
    let mine = Repositories.of_tenant c.tenant_id db.receipts in
    let kept = Repositories.signed_within (some (bounds_of t).0) (some (bounds_of t).1) in
    let latest = Anchors.get_latest_receipt_for_day c.tenant_id (bounds_of t) db in
    let is_done : row.status ≡ anchored = cc (e, done) in
    let (root, f, g) = row_for_day-root c (midnight t) latest is_done in
    let first : Repositories.first_row (filter kept mine) ≡ some root =
      sym (first_row-take (filter kept mine))
      ∙ sym (
          ap (λ q. Repositories.first_row (take 1 q))
            (filter-sorted sha256 c.tenant_id kept mine l))
      ∙ f in
    (
      row,
      there,
      λ r at m w le.
          let (between, chain, are) = climb-filter sha256 c.tenant_id kept r root mine l m first in
          (
            between,
            are,
            (verify-IsProof r.receipt row between).1 (record {
              root = root.receipt.receipt_hash;
              at = at;
              status_is = is_done;
              root_is = g;
              at_is = w;
              in_time = le;
              of_tenant =
                  Linked-tenant sha256 c.tenant_id r mine l
                    (filter-IsRow sha256 c.tenant_id kept r mine m)
                  ∙ sym (row_for_day-key c (midnight t) latest).0;
              chain = chain;
            }),
          ),
    )
