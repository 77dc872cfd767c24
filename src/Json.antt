-- ===== src/Json.antt =====
-- packages/crypto/hash.py: what it uses of the standard library's `json` and of UTF-8.
-- Values as `_normalise` returns them, `sort_keys=True`, compact separators, `ensure_ascii=False`.
-- Each writer takes the text that follows, so that no text is appended twice.
pub mod Utf8
pub mod Numerals
pub mod Unique
use Prim.Native.Nat.{Ordering}
use Prim.Native.Char.{code}
use Prim.Native.String.{compare}
use forensa.Prelude.{
  ℕ, zero, suc, ◌+◌, ◌/◌, ◌%◌, String, Bool, true, false, List, [], ◌∷◌, ltb, nat_beq,
  if◌then◌else◌,
}

-- `negsuc n` is -(n + 1).
pub data ℤ : Type 0 where
  pos negsuc : ℕ → ℤ

mutual
  pub data Json : Type 0 where
    str : String → Json
    int : ℤ → Json
    bool : Bool → Json
    arr : Items → Json
    obj : Members → Json

  pub data Items : Type 0 where
    nil : Items
    cons : Json → Items → Items

  pub data Members : Type 0 where
    end : Members
    member : String → Json → Members → Members

-- `sorted(dct.items())`: the keys of a dict are distinct, so the values are never compared.
unfoldable pub insert_member : String → Json → Members → Members
insert_member k v end = member k v end
insert_member k v (member j w ms) = elim (compare k j) [
  | Ordering.lt ↦ member k v (member j w ms)
  | _ ↦ member j w (insert_member k v ms)
]

unfoldable mutual
  pub sort_keys : Json → Json
  sort_keys (arr xs) = arr (sort_items xs)
  sort_keys (obj ms) = obj (sort_members ms)
  sort_keys j = j

  pub sort_items : Items → Items
  sort_items nil = nil
  sort_items (cons x xs) = cons (sort_keys x) (sort_items xs)

  pub sort_members : Members → Members
  sort_members end = end
  sort_members (member k v ms) = insert_member k (sort_keys v) (sort_members ms)

-- A decimal numeral; a number below the fuel has fewer digits than that.
unfoldable pub digits_from : ℕ → ℕ → List ℕ → List ℕ
digits_from zero n r = r
digits_from (suc f) n r =
    let more = digits_from f (n / 10) ((48 + n % 10) ∷ r) in if ltb n 10 then (48 + n) ∷ r else more

unfoldable pub digits : ℕ → List ℕ → List ℕ
unfolding digits_from
digits n r = digits_from (suc n) n r

abbrev hex_digit : ℕ → ℕ
hex_digit d = if ltb d 10 then 48 + d else 87 + d

-- The escapes of `json.dumps` with `ensure_ascii=False`: \" \\ \n \r \t \f \b and \u00XX.
unfoldable pub escape_char : ℕ → List ℕ → List ℕ
escape_char c r =
    if nat_beq c 34
    then 92 ∷ 34 ∷ r
    else if nat_beq c 92
    then 92 ∷ 92 ∷ r
    else if nat_beq c 10
    then 92 ∷ 110 ∷ r
    else if nat_beq c 13
    then 92 ∷ 114 ∷ r
    else if nat_beq c 9
    then 92 ∷ 116 ∷ r
    else if nat_beq c 12
    then 92 ∷ 102 ∷ r
    else if nat_beq c 8
    then 92 ∷ 98 ∷ r
    else if ltb c 32
    then 92 ∷ 117 ∷ 48 ∷ 48 ∷ (48 + c / 16) ∷ hex_digit (c % 16) ∷ r
    else c ∷ r

unfoldable pub escape : String → List ℕ → List ℕ
escape String.[] r = r
escape (String.◌∷◌ c s) r = escape_char (code c) (escape s r)

unfoldable pub quote : String → List ℕ → List ℕ
quote s r = 34 ∷ escape s (34 ∷ r)

unfoldable pub write_int : ℤ → List ℕ → List ℕ
write_int (pos n) r = digits n r
write_int (negsuc n) r = 45 ∷ digits (suc n) r

unfoldable pub write_bool : Bool → List ℕ → List ℕ
write_bool true r = 116 ∷ 114 ∷ 117 ∷ 101 ∷ r
write_bool false r = 102 ∷ 97 ∷ 108 ∷ 115 ∷ 101 ∷ r

unfoldable mutual
  pub write : Json → List ℕ → List ℕ
  write (str s) r = quote s r
  write (int n) r = write_int n r
  write (bool b) r = write_bool b r
  write (arr nil) r = 91 ∷ 93 ∷ r
  write (arr (cons x xs)) r = 91 ∷ write x (write_items xs r)
  write (obj end) r = 123 ∷ 125 ∷ r
  write (obj (member k v ms)) r = 123 ∷ quote k (58 ∷ write v (write_members ms r))

  pub write_items : Items → List ℕ → List ℕ
  write_items nil r = 93 ∷ r
  write_items (cons x xs) r = 44 ∷ write x (write_items xs r)

  pub write_members : Members → List ℕ → List ℕ
  write_members end r = 125 ∷ r
  write_members (member k v ms) r = 44 ∷ quote k (58 ∷ write v (write_members ms r))

-- `.encode("utf-8")`
unfoldable pub utf8_char : ℕ → List ℕ → List ℕ
utf8_char c r =
    if ltb c 128
    then c ∷ r
    else if ltb c 2048
    then (192 + c / 64) ∷ (128 + c % 64) ∷ r
    else if ltb c 65536
    then (224 + c / 4096) ∷ (128 + c / 64 % 64) ∷ (128 + c % 64) ∷ r
    else (240 + c / 262144) ∷ (128 + c / 4096 % 64) ∷ (128 + c / 64 % 64) ∷ (128 + c % 64) ∷ r

unfoldable pub utf8 : List ℕ → List ℕ
utf8 [] = []
utf8 (c ∷ cs) = utf8_char c (utf8 cs)

-- `json.dumps(value, sort_keys=True, …).encode("utf-8")`
unfoldable pub dumps : Json → List ℕ
dumps j = utf8 (write (sort_keys j) [])
