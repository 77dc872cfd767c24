-- ===== src/Runner/Scope.antt =====
-- packages/jobs/ma_export_runner.py: the anchors of a window.
use forensa.Prelude.{
  ◌⊎◌, inl, inr, ℕ, suc, ◌+◌, ◌%◌, ◌≤◌, ◌≡◌, refl, ◌∙◌, Bool, true, false, List, [], ◌∷◌, length,
  All, take, filter, sort_asc, insert_asc, leb, if◌then◌else◌, nat_eq, ◌==◌, ◌&&◌, arith, zero,
}
use forensa.Anchors.{AnchorRow, day_length}
use forensa.Anchors.Table.{IsSound}
use forensa.Runner
use forensa.Runner.{World, Services, Draws}

module _ {ℓ} {A : Type ℓ} (P : A → Type 0) where
  All-filter :
      (Q : A → Type 0) (p : A → Bool) (xs : List A)
      → ((x : A) → Q x → p x ≡ true → P x)
      → All Q xs
      → All P (filter p xs)
  All-filter Q p [] h a = tt
  All-filter Q p (x ∷ xs) h a = of_answer (p x) refl (All-filter Q p xs h a.1)
    where
      of_answer :
          (b : Bool)
          → p x ≡ b
          → All P (filter p xs)
          → All P (if b then x ∷ filter p xs else filter p xs)
      of_answer true e rest = (h x a.0 e, rest)
      of_answer false e rest = rest

  All-take : (n : ℕ) (xs : List A) → All P xs → All P (take n xs)
  All-take zero xs h = tt
  All-take (suc n) [] h = tt
  All-take (suc n) (x ∷ xs) h = (h.0, All-take n xs h.1)

  All-insert_asc :
      (key : A → ℕ) (x : A) (xs : List A) → P x → All P xs → All P (insert_asc key x xs)
  All-insert_asc key x [] p h = (p, tt)
  All-insert_asc key x (y ∷ ys) p h =
      of_answer (leb (key x) (key y)) (All-insert_asc key x ys p h.1)
    where
      of_answer :
          (b : Bool)
          → All P (insert_asc key x ys)
          → All P (if b then x ∷ y ∷ ys else y ∷ insert_asc key x ys)
      of_answer true rest = (p, h)
      of_answer false rest = (h.0, rest)

  All-sort_asc : (key : A → ℕ) (xs : List A) → All P xs → All P (sort_asc key xs)
  All-sort_asc key [] h = tt
  All-sort_asc key (x ∷ xs) h = All-insert_asc key x (sort_asc key xs) h.0 (All-sort_asc key xs h.1)

abbrev pub IsAnchor : AnchorRow → List AnchorRow → Type 0
IsAnchor r [] = ⊥
IsAnchor r (q ∷ rows) = (q ≡ r) ⊎ IsAnchor r rows

-- A row of the table that the query keeps.
abbrev pub InWindow : ℕ → ℕ → ℕ → List AnchorRow → AnchorRow → Type 0
InWindow tenant scope_start scope_end anchors r =
    (r.anchor_date % day_length ≡ 0)
    × IsAnchor r anchors
    × (r.tenant_id ≡ tenant)
    × (scope_start ≤ r.anchor_date)
    × (r.anchor_date ≤ scope_end)

-- How many anchors of the tenant are in the window.
abbrev pub anchor_count : ℕ → ℕ → ℕ → List AnchorRow → ℕ
anchor_count tenant scope_start scope_end [] = 0
anchor_count tenant scope_start scope_end (r ∷ rows) =
    (if r.tenant_id == tenant && leb scope_start r.anchor_date && leb r.anchor_date scope_end
      then 1
      else 0)
    + anchor_count tenant scope_start scope_end rows

length-insert_asc {ℓ} :
    {A : Type ℓ} (key : A → ℕ) (x : A) (xs : List A)
    → length (insert_asc key x xs) ≡ suc (length xs)
length-insert_asc key x [] = refl
length-insert_asc key x (y ∷ ys) = ground (arith, length-insert_asc key x ys)

length-sort_asc {ℓ} :
    {A : Type ℓ} (key : A → ℕ) (xs : List A) → length (sort_asc key xs) ≡ length xs
length-sort_asc key [] = refl
length-sort_asc key (x ∷ xs) =
    omega (arith, length-insert_asc key x (sort_asc key xs), length-sort_asc key xs)

length-take_all {ℓ} :
    {A : Type ℓ} (n : ℕ) (xs : List A)
    → length (take (suc n) xs) ≤ n
    → length (take (suc n) xs) ≡ length xs
length-take_all n [] h = refl
length-take_all zero (x ∷ xs) h = absurd (omega (arith, h))
length-take_all (suc n) (x ∷ xs) h = omega (arith, length-take_all n xs (omega (arith, h)))

-- Where there are no more than a bundle can hold, the query answers all of them.
pub length-anchors_in_scope :
    (tenant scope_start scope_end : ℕ) (rows : List AnchorRow)
    → length (Runner.anchors_in_scope tenant scope_start scope_end rows) ≤ 366
    → length (Runner.anchors_in_scope tenant scope_start scope_end rows)
      ≡ anchor_count tenant scope_start scope_end rows
unfolding Runner.anchors_in_scope
length-anchors_in_scope tenant scope_start scope_end rows few =
    let kept : AnchorRow → Bool =
      λ r. r.tenant_id == tenant && leb scope_start r.anchor_date && leb r.anchor_date scope_end in
    let date : AnchorRow → ℕ = λ r. r.anchor_date in
    length-take_all 366 (sort_asc date (filter kept rows)) few
    ∙ length-sort_asc date (filter kept rows)
    ∙ counted rows
  where
    counted :
        (rows : List AnchorRow)
        → length (
            filter
              (λ (r : AnchorRow).
                r.tenant_id == tenant
                && leb scope_start r.anchor_date
                && leb r.anchor_date scope_end)
              rows)
          ≡ anchor_count tenant scope_start scope_end rows
    counted [] = refl
    counted (r ∷ rows) = ground (arith, counted rows)

pub midnights :
    (rows : List AnchorRow)
    → IsSound rows
    → All (λ (r : AnchorRow). r.anchor_date % day_length ≡ 0) rows
midnights [] h = tt
midnights (r ∷ rows) h = (h.1, midnights rows h.3)

more_anchors :
    (q : AnchorRow) (table rows : List AnchorRow)
    → All (λ (r : AnchorRow). IsAnchor r table) rows
    → All (λ (r : AnchorRow). IsAnchor r (q ∷ table)) rows
more_anchors q table [] h = tt
more_anchors q table (r ∷ rows) h = (inr h.0, more_anchors q table rows h.1)

own_anchors : (rows : List AnchorRow) → All (λ (r : AnchorRow). IsAnchor r rows) rows
own_anchors [] = tt
own_anchors (r ∷ rows) = (inl refl, more_anchors r rows rows (own_anchors rows))

both {ℓ} :
    {A : Type ℓ} (P Q : A → Type 0) (xs : List A) → All P xs → All Q xs → All (λ x. P x × Q x) xs
both P Q [] p q = tt
both P Q (x ∷ xs) p q = ((p.0, q.0), both P Q xs p.1 q.1)

pub in_scope :
    (tenant scope_start scope_end : ℕ) (anchors : List AnchorRow)
    → All (λ (r : AnchorRow). r.anchor_date % day_length ≡ 0) anchors
    → All
        (InWindow tenant scope_start scope_end anchors)
        (Runner.anchors_in_scope tenant scope_start scope_end anchors)
unfolding Runner.anchors_in_scope
in_scope tenant scope_start scope_end anchors m =
    let P = InWindow tenant scope_start scope_end anchors in
    let kept : AnchorRow → Bool =
      λ r. r.tenant_id == tenant && leb scope_start r.anchor_date && leb r.anchor_date scope_end in
    let midnight : AnchorRow → Type 0 = λ r. r.anchor_date % day_length ≡ 0 in
    let own : AnchorRow → Type 0 = λ r. IsAnchor r anchors in
    All-take P (Runner.max_packs_per_bundle + 1)
      (sort_asc (λ (r : AnchorRow). r.anchor_date) (filter kept anchors))
      (All-sort_asc P (λ (r : AnchorRow). r.anchor_date) (filter kept anchors)
        (All-filter P (λ (r : AnchorRow). midnight r × own r) kept anchors
          (λ r q k. (q.0, q.1, ground (arith, k), ground (arith, k), ground (arith, k)))
          (both midnight own anchors m (own_anchors anchors))))
