-- ===== src/Prelude/Lists.antt =====
-- Lists measured by native numbers, under the library's names, and predicates on all members.
use Prim.Native.Nat.{ℕ, zero, suc, ◌+◌}
use mathlib.Core.Path.{◌≡◌}
use mathlib.Core.Bool.{Bool}
use mathlib.Core.List.{List, [], ◌∷◌, ◌++◌}
use native.Mathlib.Omega.{arith}
use forensa.Prelude.Tests.{leb, if◌then◌else◌}

module _ {ℓ} {A : Type ℓ} where
  abbrev pub length : List A → ℕ
  length [] = 0
  length (x ∷ xs) = suc (length xs)

  abbrev pub take : ℕ → List A → List A
  take zero xs = []
  take (suc n) [] = []
  take (suc n) (x ∷ xs) = x ∷ take n xs

  abbrev pub drop : ℕ → List A → List A
  drop zero xs = xs
  drop (suc n) [] = []
  drop (suc n) (x ∷ xs) = drop n xs

  -- A Boolean test in place of the library's decision.
  abbrev pub filter : (A → Bool) → List A → List A
  filter p [] = []
  filter p (x ∷ xs) = let rest = filter p xs in if p x then x ∷ rest else rest

  abbrev pub All {κ} : (A → Type κ) → List A → Type κ
  All P [] = Unit
  All P (x ∷ xs) = P x × All P xs

  pub length-append : (xs ys : List A) → length (xs ++ ys) ≡ length xs + length ys
  length-append [] ys = omega arith
  length-append (x ∷ xs) ys = omega (arith, length-append xs ys)

-- `ORDER BY key ASC` and `DESC`: rows with equal keys stay in the table's order.
module _ {ℓ} {A : Type ℓ} (key : A → ℕ) where
  abbrev pub insert_asc : A → List A → List A
  insert_asc x [] = x ∷ []
  insert_asc x (y ∷ ys) = if leb (key x) (key y) then x ∷ y ∷ ys else y ∷ insert_asc x ys

  abbrev pub sort_asc : List A → List A
  sort_asc [] = []
  sort_asc (x ∷ xs) = insert_asc x (sort_asc xs)

  abbrev pub insert_desc : A → List A → List A
  insert_desc x [] = x ∷ []
  insert_desc x (y ∷ ys) = if leb (key y) (key x) then x ∷ y ∷ ys else y ∷ insert_desc x ys

  abbrev pub sort_desc : List A → List A
  sort_desc [] = []
  sort_desc (x ∷ xs) = insert_desc x (sort_desc xs)
