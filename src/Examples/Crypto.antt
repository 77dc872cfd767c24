-- ===== src/Examples/Crypto.antt =====
-- packages/crypto at concrete inputs: canonical JSON, hashes, signatures and the hash chain.
use forensa.Prelude.{
  ℕ, String, ◌≡◌, ◌≢◌, ◌⊎◌, refl, true, none, some, List, [], ◌∷◌, ◌++◌, length, Result, ok, err,
  value_error,
}
use forensa.Json.{Json, str, int, obj, end, member, pos}
use forensa.Hash.{Value, dict, entry, no_entries, text, integer, none_value}
use forensa.Hash.Injective.{SameContent, Collision, sha256_hex-SameContent}
use forensa.Sign.{verify-sign}
use forensa.Chain.{Entry}
use forensa.Chain.Append.{next_entry_extends, last_entry}
use forensa.Chain.Tamper.{last_hash_unique}
use forensa.Examples.Data.{toy_ed25519-Laws, private_key, payload}
use forensa.Json.{
  insert_member, sort_keys, digits_from, digits, escape_char, escape, quote, write_int, write_bool,
  write, utf8_char, utf8, dumps,
}
use forensa.Hash.{b64encode, normalise, canonical_json, sha256_hex}
use forensa.Sign.{load_private_key, load_public_key, sign, verify}
use forensa.Chain.{require_keys, hash_entry, next_entry, entry_checks, verify_from, verify_chain}
use forensa.Examples.Data.{toy_sha256, toy_ed25519}

abbrev two_keys : Json
two_keys = obj (member "b" (int (pos 17)) (member "a" (str "x\"y") end))

abbrev other_order : Json
other_order = obj (member "a" (str "x\"y") (member "b" (int (pos 17)) end))

same_text : dumps two_keys ≡ dumps other_order
unfolding insert_member sort_keys digits_from digits escape_char escape quote write_int write_bool
    write utf8_char utf8 dumps
same_text = refl

abbrev reordered : Value
reordered = dict (entry "count" (integer (pos 2)) (entry "tool" (text "search") no_entries))

abbrev hash_of : Value → String
hash_of v = elim (sha256_hex toy_sha256 v) [ ok h ↦ h | err _ ↦ "" ]

payload_hash : sha256_hex toy_sha256 payload ≡ ok (hash_of payload)
unfolding insert_member sort_keys digits_from digits escape_char escape quote write_int write_bool
    write utf8_char utf8 dumps b64encode normalise canonical_json sha256_hex
payload_hash = refl

reordered_hash : sha256_hex toy_sha256 reordered ≡ ok (hash_of payload)
unfolding insert_member sort_keys digits_from digits escape_char escape quote write_int write_bool
    write utf8_char utf8 dumps b64encode normalise canonical_json sha256_hex
reordered_hash = refl

sha256_hex-SameContent_example : SameContent payload reordered ⊎ Collision toy_sha256
sha256_hex-SameContent_example =
    sha256_hex-SameContent toy_sha256 payload reordered payload_hash reordered_hash

abbrev signature : List ℕ
signature = elim (sign toy_ed25519 private_key payload) [ ok s ↦ s | err _ ↦ [] ]

signed : sign toy_ed25519 private_key payload ≡ ok signature
unfolding insert_member sort_keys digits_from digits escape_char escape quote write_int write_bool
    write utf8_char utf8 dumps b64encode normalise canonical_json sha256_hex load_private_key
    load_public_key sign verify toy_sha256 toy_ed25519
signed = refl

verify-sign_example :
    (length signature ≡ 64)
    × (verify toy_ed25519 (toy_ed25519.public_key private_key) payload signature ≡ ok true)
verify-sign_example = verify-sign toy_ed25519 toy_ed25519-Laws private_key payload signature signed

abbrev null_field : Value
null_field = dict (entry "a" none_value no_entries)

no_form : canonical_json null_field ≡ err value_error
unfolding b64encode normalise canonical_json sha256_hex
no_form = refl

signature_length : length signature ≡ 64
unfolding insert_member sort_keys digits_from digits escape_char escape quote write_int write_bool
    write utf8_char utf8 dumps b64encode normalise canonical_json sha256_hex load_private_key
    load_public_key sign verify toy_sha256 toy_ed25519
signature_length = refl

abbrev entry_or : Result Entry → Entry
entry_or (ok e) = e
entry_or (err _) = record {
  sequence = none;
  payload_hash = none;
  prev_hash = none;
  entry_hash = none;
}

abbrev first : Entry
first = entry_or (next_entry toy_sha256 none "aa")

abbrev second : Entry
second = entry_or (next_entry toy_sha256 (some first) "bb")

chain_verifies : verify_chain toy_sha256 (first ∷ second ∷ []) ≡ true
unfolding insert_member sort_keys digits_from digits escape_char escape quote write_int write_bool
    write utf8_char utf8 dumps b64encode normalise canonical_json sha256_hex require_keys hash_entry
    next_entry entry_checks verify_from verify_chain toy_sha256 toy_ed25519
chain_verifies = refl

not_empty : ◌≢◌ {A = String} "cc" ""
not_empty = λ e. cc e

next_entry_extends_example :
    (e : Entry) × (next_entry toy_sha256 (last_entry (first ∷ second ∷ [])) "cc" ≡ ok e)
    × (e.payload_hash ≡ some "cc")
    × (verify_chain toy_sha256 ((first ∷ second ∷ []) ++ e ∷ []) ≡ true)
next_entry_extends_example =
    next_entry_extends toy_sha256 (first ∷ second ∷ []) "cc" chain_verifies not_empty

last_hash_unique_example : (first ∷ second ∷ [] ≡ first ∷ second ∷ []) ⊎ Collision toy_sha256
last_hash_unique_example =
    last_hash_unique toy_sha256 first first (second ∷ []) (second ∷ []) chain_verifies
      chain_verifies refl
