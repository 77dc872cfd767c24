-- ===== src/Hash.antt =====
-- packages/crypto/hash.py: the canonical form that every hash is taken of.
-- A datetime is its ISO text with whether it has a timezone. Floats and sets are not modelled.
-- `sha256` is `hashlib.sha256(…).hexdigest()`, a parameter.
pub mod Injective
use Prim.Native.Char.{Char}
use Prim.Native.String.{◌++◌, char_at}
use forensa.Prelude.{
  ℕ, ◌+◌, ◌*◌, ◌/◌, ◌%◌, String, Bool, true, false, List, [], ◌∷◌, Result, ok, err, value_error,
  type_error, ◌>>=◌,
}
use forensa.Json.{ℤ, Json, str, int, bool, arr, obj, Items, nil, cons, Members, end, member, dumps}

mutual
  -- What the code is called with; `other` is a value of any other type.
  pub data Value : Type 0 where
    none_value : Value
    datetime : Bool → String → Value
    bytes : List ℕ → Value
    dict : Entries → Value
    list : Elements → Value
    text : String → Value
    integer : ℤ → Value
    boolean : Bool → Value
    other : Value

  pub data Entries : Type 0 where
    no_entries : Entries
    entry : String → Value → Entries → Entries

  pub data Elements : Type 0 where
    no_elements : Elements
    element : Value → Elements → Elements

b64_char : ℕ → Char
b64_char n = char_at "ABCDEFGHIJKLMNOPQRSTUVWXYZabcdefghijklmnopqrstuvwxyz0123456789+/" n

pad : String
pad = "="

-- `base64.b64encode(value).decode("ascii")`
unfoldable pub b64encode : List ℕ → String
unfolding b64_char pad
b64encode [] = ""
b64encode (a ∷ []) = String.◌∷◌ (b64_char (a / 4)) (String.◌∷◌ (b64_char (a % 4 * 16)) (pad ++ pad))
b64encode (a ∷ b ∷ []) =
    String.◌∷◌ (b64_char (a / 4))
      (String.◌∷◌ (b64_char (a % 4 * 16 + b / 16)) (String.◌∷◌ (b64_char (b % 16 * 4)) pad))
b64encode (a ∷ b ∷ c ∷ r) = String.◌∷◌ (b64_char (a / 4)) (
    String.◌∷◌ (b64_char (a % 4 * 16 + b / 16))
      (String.◌∷◌ (b64_char (b % 16 * 4 + c / 64)) (String.◌∷◌ (b64_char (c % 64)) (b64encode r))))

unfoldable mutual
  -- `_normalise`
  pub normalise : Value → Result Json
  normalise none_value = err value_error
  normalise (datetime true iso) = ok (str iso)
  normalise (datetime false iso) = err value_error
  normalise (bytes bs) = ok (str ("base64:" ++ b64encode bs))
  normalise (dict es) = do ms ← normalise_entries es; ok (obj ms)
  normalise (list xs) = do ys ← normalise_elements xs; ok (arr ys)
  normalise (text s) = ok (str s)
  normalise (integer n) = ok (int n)
  normalise (boolean b) = ok (bool b)
  normalise other = err type_error

  pub normalise_entries : Entries → Result Members
  normalise_entries no_entries = ok end
  normalise_entries (entry k v es) = do
    j ← normalise v
    ms ← normalise_entries es
    ok (member k j ms)

  pub normalise_elements : Elements → Result Items
  normalise_elements no_elements = ok nil
  normalise_elements (element v xs) = do j ← normalise v; ys ← normalise_elements xs; ok (cons j ys)

unfoldable pub canonical_json : Value → Result (List ℕ)
canonical_json payload = do j ← normalise payload; ok (dumps j)

unfoldable pub sha256_hex : (List ℕ → String) → Value → Result String
sha256_hex sha256 payload = do bs ← canonical_json payload; ok (sha256 bs)
