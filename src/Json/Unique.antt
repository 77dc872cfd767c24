-- ===== src/Json/Unique.antt =====
-- A JSON text determines its value: different values are written differently.
use forensa.Prelude.{
  ℕ, String, ◌≡◌, refl, sym, ap, ◌∙◌, Bool, true, false, List, [], ◌∷◌, nat_beq, if◌then◌else◌,
  arith,
}
use forensa.Json.{
  pos, negsuc, Json, str, int, bool, arr, obj, Items, nil, cons, Members, end, member, quote,
  write_int, write_bool, write, write_items, write_members, sort_keys, dumps,
}
use forensa.Json.Utf8.{utf8_injective}
use forensa.Json.Numerals.{ends, first, first-digits, quote_unique, write_int_unique}

-- The kind of a value, and the kind that its first character shows.
tag : Json → ℕ
tag (str s) = 0
tag (int n) = 1
tag (bool b) = 2
tag (arr xs) = 3
tag (obj ms) = 4

tag_of : ℕ → ℕ
tag_of c =
    if nat_beq c 34
    then 0
    else if nat_beq c 91
    then 3
    else if nat_beq c 123
    then 4
    else if nat_beq c 116
    then 2
    else if nat_beq c 102
    then 2
    else 1

tag-first : (j : Json) (r : List ℕ) → tag_of (first (write j r)) ≡ tag j
unfolding tag tag_of first write quote write_int write_bool
tag-first (str s) r = refl
tag-first (int (pos n)) r = ground (arith, first-digits n r)
tag-first (int (negsuc n)) r = refl
tag-first (bool true) r = refl
tag-first (bool false) r = refl
tag-first (arr nil) r = refl
tag-first (arr (cons x xs)) r = refl
tag-first (obj end) r = refl
tag-first (obj (member k v ms)) r = refl

same_tag : (a b : Json) (r s : List ℕ) → write a r ≡ write b s → tag a ≡ tag b
same_tag a b r s h = sym (tag-first a r) ∙ ap (λ t. tag_of (first t)) h ∙ tag-first b s

ends-write_items : (xs : Items) (r : List ℕ) → ends (write_items xs r) ≡ true
unfolding write_items
ends-write_items nil r = refl
ends-write_items (cons x xs) r = refl

ends-write_members : (ms : Members) (r : List ℕ) → ends (write_members ms r) ≡ true
unfolding write_members
ends-write_members end r = refl
ends-write_members (member k v ms) r = refl

write_bool_unique :
    (a b : Bool) (r s : List ℕ) → write_bool a r ≡ write_bool b s → (a ≡ b) × (r ≡ s)
unfolding write_bool
write_bool_unique true true r s h = (refl, cc h)
write_bool_unique false false r s h = (refl, cc h)
write_bool_unique true false r s h = ground arith
write_bool_unique false true r s h = ground arith

-- No value begins like the end of a list.
not_bracket : (j : Json) (r s : List ℕ) → write j r ≡ 93 ∷ s → ⊥
unfolding write quote write_int write_bool first
not_bracket (str x) r s h = ground arith
not_bracket (int (pos n)) r s h = ground (arith, first-digits n r, ap first h)
not_bracket (int (negsuc n)) r s h = ground arith
not_bracket (bool true) r s h = ground arith
not_bracket (bool false) r s h = ground arith
not_bracket (arr nil) r s h = ground arith
not_bracket (arr (cons x xs)) r s h = ground arith
not_bracket (obj end) r s h = ground arith
not_bracket (obj (member k v ms)) r s h = ground arith

-- An object that is empty is not written like one that is not.
not_empty : (k : String) (v r : List ℕ) → 123 ∷ 125 ∷ r ≡ 123 ∷ quote k v → ⊥
unfolding quote
not_empty k v r h = ground arith

mutual
  unfolding write write_items write_members tag

  write_unique :
      (a b : Json) (r s : List ℕ)
      → ends r ≡ true
      → ends s ≡ true
      → write a r ≡ write b s
      → (a ≡ b) × (r ≡ s)
  write_unique (str x) (str y) r s hr hs h = let (p, q) = quote_unique x y r s h in (ap str p, q)
  write_unique (int x) (int y) r s hr hs h =
      let (p, q) = write_int_unique x y r s hr hs h in (ap int p, q)
  write_unique (bool x) (bool y) r s hr hs h =
      let (p, q) = write_bool_unique x y r s h in (ap bool p, q)
  write_unique (arr nil) (arr nil) r s hr hs h = (refl, cc h)
  write_unique (arr nil) (arr (cons y ys)) r s hr hs h =
      absurd (not_bracket y (write_items ys s) r (cc h))
  write_unique (arr (cons x xs)) (arr nil) r s hr hs h =
      absurd (not_bracket x (write_items xs r) s (cc h))
  write_unique (arr (cons x xs)) (arr (cons y ys)) r s hr hs h =
      let (p, more) =
        write_unique x y (write_items xs r) (write_items ys s) (ends-write_items xs r)
          (ends-write_items ys s) (cc h) in
      let (q, k) = items_unique xs ys r s more in (cc (p, q), k)
  write_unique (obj end) (obj end) r s hr hs h = (refl, cc h)
  write_unique (obj end) (obj (member j w ns)) r s hr hs h =
      absurd (not_empty j (58 ∷ write w (write_members ns s)) r h)
  write_unique (obj (member k v ms)) (obj end) r s hr hs h =
      absurd (not_empty k (58 ∷ write v (write_members ms r)) s (sym h))
  write_unique (obj (member k v ms)) (obj (member j w ns)) r s hr hs h =
      let (p, after) =
        quote_unique k j (58 ∷ write v (write_members ms r)) (58 ∷ write w (write_members ns s))
          (cc h) in
      let (q, more) =
        write_unique v w (write_members ms r) (write_members ns s) (ends-write_members ms r)
          (ends-write_members ns s) (cc after) in
      let (e, k') = members_unique ms ns r s more in (cc (p, q, e), k')
  write_unique a b r s hr hs h = ground (arith, same_tag a b r s h)

  items_unique :
      (xs ys : Items) (r s : List ℕ) → write_items xs r ≡ write_items ys s → (xs ≡ ys) × (r ≡ s)
  items_unique nil nil r s h = (refl, cc h)
  items_unique nil (cons y ys) r s h = ground arith
  items_unique (cons x xs) nil r s h = ground arith
  items_unique (cons x xs) (cons y ys) r s h =
      let (p, more) =
        write_unique x y (write_items xs r) (write_items ys s) (ends-write_items xs r)
          (ends-write_items ys s) (cc h) in
      let (q, k) = items_unique xs ys r s more in (cc (p, q), k)

  members_unique :
      (ms ns : Members) (r s : List ℕ)
      → write_members ms r ≡ write_members ns s
      → (ms ≡ ns) × (r ≡ s)
  members_unique end end r s h = (refl, cc h)
  members_unique end (member j w ns) r s h = ground arith
  members_unique (member k v ms) end r s h = ground arith
  members_unique (member k v ms) (member j w ns) r s h =
      let (p, after) =
        quote_unique k j (58 ∷ write v (write_members ms r)) (58 ∷ write w (write_members ns s))
          (cc h) in
      let (q, more) =
        write_unique v w (write_members ms r) (write_members ns s) (ends-write_members ms r)
          (ends-write_members ns s) (cc after) in
      let (e, k') = members_unique ms ns r s more in (cc (p, q, e), k')

-- Two JSON values that are written as the same bytes are the same up to the order of keys.
pub dumps_injective : (a b : Json) → dumps a ≡ dumps b → sort_keys a ≡ sort_keys b
unfolding dumps
dumps_injective a b h =
    (write_unique (sort_keys a) (sort_keys b) [] [] refl refl
      (utf8_injective (write (sort_keys a) []) (write (sort_keys b) []) h)).0
