-- ===== src/Anchors/Table.antt =====
-- packages/ledger/anchor.py: what is kept true of the table of anchors, and what its lookup answers.
use forensa.Prelude.{
  ℕ, ◌%◌, Bool, true, false, Option, none, some, List, [], ◌∷◌, filter, All, ◌≡◌, refl,
  if◌then◌else◌, ◌==◌, ◌!=◌, nat_eq, ok, require-eq-ok, arith, subst,
}
use forensa.Anchors
use forensa.Anchors.{AnchorRow, AnchorStatus, anchored, deferred}

abbrev is_some {ℓ} : {A : Type ℓ} → Option A → Bool
is_some none = false
is_some (some a) = true

-- An anchored row has a proof, a deferred one has none.
abbrev pub Shape : AnchorStatus → AnchorRow → Type 0
Shape anchored r =
    (is_some r.root_hash ≡ true)
    × (is_some r.tsr_bytes ≡ true)
    × (is_some r.tsa_signature ≡ true)
    × (is_some r.timestamped_at ≡ true)
Shape deferred r =
    (r.root_hash ≡ none)
    × (r.tsr_bytes ≡ none)
    × (r.tsa_signature ≡ none)
    × (r.timestamped_at ≡ none)

-- Each row is of a midnight, has the shape of its status, and is the one of its key and of its
-- tenant's day.
abbrev pub IsSound : List AnchorRow → Type 0
IsSound [] = Unit
IsSound (r ∷ rs) =
    Shape r.status r
    × (r.anchor_date % Anchors.day_length ≡ 0)
    × (Anchors.is_new_anchor r rs ≡ true)
    × IsSound rs

-- The row of a tenant's day.
unfoldable pub find_anchor : ℕ → ℕ → List AnchorRow → Option AnchorRow
find_anchor tenant date [] = none
find_anchor tenant date (r ∷ rs) =
    if Anchors.is_for tenant date r then some r else find_anchor tenant date rs

new-filter :
    (a : AnchorRow) (rs : List AnchorRow) (tenant date : ℕ)
    → Anchors.is_new_anchor a rs ≡ true
    → Anchors.is_for tenant date a ≡ true
    → filter (Anchors.is_for tenant date) rs ≡ []
unfolding Anchors.is_new_anchor
new-filter a [] tenant date n h = refl
new-filter a (r ∷ rs) tenant date n h = ground (arith, n, h, new-filter a rs tenant date)

-- On a sound table the query finds one row at most.
pub get_existing_row-find :
    (tenant date : ℕ) (rs : List AnchorRow)
    → IsSound rs
    → Anchors.get_existing_row tenant date rs ≡ ok (find_anchor tenant date rs)
unfolding Anchors.get_existing_row find_anchor
get_existing_row-find tenant date [] s = refl
get_existing_row-find tenant date (r ∷ rs) s =
    ground (arith, new-filter r rs tenant date s.2, get_existing_row-find tenant date rs s.3)

new-delete :
    (a : AnchorRow) (p : AnchorRow → Bool) (rs : List AnchorRow)
    → Anchors.is_new_anchor a rs ≡ true
    → Anchors.is_new_anchor a (filter p rs) ≡ true
unfolding Anchors.is_new_anchor
new-delete a p [] n = refl
new-delete a p (r ∷ rs) n = ground (arith, n, new-delete a p rs)

filter-IsSound : (p : AnchorRow → Bool) (rs : List AnchorRow) → IsSound rs → IsSound (filter p rs)
filter-IsSound p [] s = tt
filter-IsSound p (r ∷ rs) s = of_answer (p r) (filter-IsSound p rs s.3)
  where
    of_answer :
        (b : Bool) → IsSound (filter p rs) → IsSound (if b then r ∷ filter p rs else filter p rs)
    of_answer true f = (s.0, s.1, new-delete r p rs s.2, f)
    of_answer false f = f

-- A row that was found is of the day that was asked for, and no other row has its id.
find-is_for :
    (tenant date : ℕ) (e : AnchorRow) (rs : List AnchorRow)
    → find_anchor tenant date rs ≡ some e
    → Anchors.is_for tenant date e ≡ true
unfolding find_anchor
find-is_for tenant date e [] h = cc h
find-is_for tenant date e (r ∷ rs) h = ground (arith, h, find-is_for tenant date e rs)

find-ne :
    (tenant date : ℕ) (r e : AnchorRow) (rs : List AnchorRow)
    → find_anchor tenant date rs ≡ some e
    → Anchors.is_new_anchor r rs ≡ true
    → (r.id == e.id) ≡ false
unfolding find_anchor Anchors.is_new_anchor
find-ne tenant date r e [] h n = cc h
find-ne tenant date r e (q ∷ rs) h n = ground (arith, h, n, find-ne tenant date r e rs)

filter-new :
    (a : AnchorRow) (rs : List AnchorRow)
    → Anchors.is_new_anchor a rs ≡ true
    → filter (λ (r : AnchorRow). r.id != a.id) rs ≡ rs
unfolding Anchors.is_new_anchor
filter-new a [] n = refl
filter-new a (r ∷ rs) n = ground (arith, n, filter-new a rs)

-- Deleting the row of one day leaves the others.
find-delete :
    (tenant date t d : ℕ) (e : AnchorRow) (rs : List AnchorRow)
    → IsSound rs
    → find_anchor tenant date rs ≡ some e
    → Anchors.is_for t d e ≡ false
    → find_anchor t d (filter (λ (r : AnchorRow). r.id != e.id) rs) ≡ find_anchor t d rs
unfolding find_anchor
find-delete tenant date t d e [] s h o = refl
find-delete tenant date t d e (r ∷ rs) s h o = ground (
  arith,
  h,
  o,
  filter-new r rs s.2,
  find-ne tenant date r e rs,
  find-delete tenant date t d e rs s.3,
)

find_none-new :
    (a : AnchorRow) (rs : List AnchorRow)
    → All (λ (r : AnchorRow). (r.id == a.id) ≡ false) rs
    → find_anchor a.tenant_id a.anchor_date rs ≡ none
    → Anchors.is_new_anchor a rs ≡ true
unfolding find_anchor Anchors.is_new_anchor
find_none-new a [] n f = refl
find_none-new a (r ∷ rs) n f = ground (arith, n.0, f, find_none-new a rs n.1)

new-find_none :
    (a : AnchorRow) (tenant date : ℕ) (rs : List AnchorRow)
    → Anchors.is_new_anchor a rs ≡ true
    → Anchors.is_for tenant date a ≡ true
    → find_anchor tenant date rs ≡ none
unfolding find_anchor Anchors.is_new_anchor
new-find_none a tenant date [] n h = refl
new-find_none a tenant date (r ∷ rs) n h = ground (arith, n, h, new-find_none a tenant date rs)

find-delete_none :
    (tenant date : ℕ) (e : AnchorRow) (rs : List AnchorRow)
    → IsSound rs
    → find_anchor tenant date rs ≡ some e
    → find_anchor tenant date (filter (λ (r : AnchorRow). r.id != e.id) rs) ≡ none
unfolding find_anchor
find-delete_none tenant date e [] s h = refl
find-delete_none tenant date e (r ∷ rs) s h = ground (
  arith,
  h,
  filter-new r rs s.2,
  new-find_none r tenant date rs s.2,
  find-ne tenant date r e rs,
  find-delete_none tenant date e rs s.3,
)

All-filter :
    (a : AnchorRow) (p : AnchorRow → Bool) (rs : List AnchorRow)
    → All (λ (r : AnchorRow). (r.id == a.id) ≡ false) rs
    → All (λ (r : AnchorRow). (r.id == a.id) ≡ false) (filter p rs)
All-filter a p [] n = tt
All-filter a p (r ∷ rs) n = of_answer (p r) (All-filter a p rs n.1)
  where
    of_answer :
        (b : Bool)
        → All (λ (r : AnchorRow). (r.id == a.id) ≡ false) (filter p rs)
        → All
            (λ (r : AnchorRow). (r.id == a.id) ≡ false)
            (if b then r ∷ filter p rs else filter p rs)
    of_answer true f = (n.0, f)
    of_answer false f = f

module _ (row : AnchorRow) (rs rs' : List AnchorRow) (s : IsSound rs) where
  -- What replacing the row of its day does to the table.
  pub replace_row-find :
      (t d : ℕ)
      → Anchors.replace_row (find_anchor row.tenant_id row.anchor_date rs) row rs ≡ ok rs'
      → find_anchor t d rs' ≡ (if Anchors.is_for t d row then some row else find_anchor t d rs)
  unfolding Anchors.replace_row find_anchor
  replace_row-find t d = of_found (find_anchor row.tenant_id row.anchor_date rs) refl
    where
      of_found :
          (o : Option AnchorRow)
          → find_anchor row.tenant_id row.anchor_date rs ≡ o
          → Anchors.replace_row o row rs ≡ ok rs'
          → find_anchor t d rs' ≡ (if Anchors.is_for t d row then some row else find_anchor t d rs)
      of_found none f h = ground (arith, f, h)
      of_found (some e) f h = ground (
        arith,
        h,
        find-is_for row.tenant_id row.anchor_date e rs f,
        find-delete row.tenant_id row.anchor_date t d e rs s f,
      )

  pub replace_row-IsSound :
      (existing : Option AnchorRow)
      → Shape row.status row
      → row.anchor_date % Anchors.day_length ≡ 0
      → Anchors.replace_row existing row rs ≡ ok rs'
      → IsSound rs'
  unfolding Anchors.replace_row
  replace_row-IsSound none shape midnight h =
      let (new, e) = require-eq-ok _ _ _ h in
      subst IsSound {x = row ∷ rs} (cc e) (shape, midnight, new, s)
  replace_row-IsSound (some x) shape midnight h =
      let (new, e) = require-eq-ok _ _ _ h in
      let left = filter (λ (r : AnchorRow). r.id != x.id) rs in
      subst IsSound {x = row ∷ left} (cc e)
        (shape, midnight, new, filter-IsSound (λ (r : AnchorRow). r.id != x.id) rs s)

module _ (row : AnchorRow) (rs : List AnchorRow) (s : IsSound rs) where
  -- A row with a new id can be written for a day: the row that the day had is deleted first.
  pub replace_row-ok :
      All (λ (r : AnchorRow). (r.id == row.id) ≡ false) rs
      → (rs' : List AnchorRow) × (Anchors.replace_row
            (find_anchor row.tenant_id row.anchor_date rs)
            row
            rs
          ≡ ok rs')
  unfolding Anchors.replace_row
  replace_row-ok n = of_found (find_anchor row.tenant_id row.anchor_date rs) refl
    where
      of_found :
          (o : Option AnchorRow)
          → find_anchor row.tenant_id row.anchor_date rs ≡ o
          → (rs' : List AnchorRow) × (Anchors.replace_row o row rs ≡ ok rs')
      of_found none f = (row ∷ rs, rw (find_none-new row rs n f))
      of_found (some e) f =
          let left = filter (λ (r : AnchorRow). r.id != e.id) rs in
          (
            row ∷ left,
            rw (
                find_none-new row left (All-filter row (λ (r : AnchorRow). r.id != e.id) rs n)
                  (find-delete_none row.tenant_id row.anchor_date e rs s f)),
          )
