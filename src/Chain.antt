-- ===== src/Chain.antt =====
-- packages/crypto/merkle.py: the append-only hash chain.
-- An entry is a dict: each key may be missing. Sequence numbers are not negative.
pub mod Seal
pub mod Append
pub mod Tamper
use forensa.Prelude.{
  ℕ, ◌+◌, String, Bool, true, false, ◌&&◌, Option, none, some, List, [], ◌∷◌, if◌then◌else◌, ◌==◌,
  ◌!=◌, nat_eq, string_eq, option_eq, Result, ok, err, key_error, chain_error, ◌>>=◌, ◌>>◌, require,
}
use forensa.Json.{pos}
use forensa.Hash.{Value, dict, text, integer, entry, no_entries, sha256_hex}

pub data Key : Type 0 where
  sequence payload_hash prev_hash entry_hash : Key

pub record Entry : Type 0 where
  pub sequence : Option ℕ
  pub payload_hash : Option String
  pub prev_hash : Option (Option String)
  pub entry_hash : Option String

abbrev present {ℓ} : {A : Type ℓ} → Option A → Bool
present none = false
present (some a) = true

-- `k in entry`
has : Entry → Key → Bool
has e Key.sequence = present e.sequence
has e Key.payload_hash = present e.payload_hash
has e Key.prev_hash = present e.prev_hash
has e Key.entry_hash = present e.entry_hash

abbrev has_all : Entry → List Key → Bool
has_all e [] = true
has_all e (k ∷ ks) = has e k && has_all e ks

unfoldable pub require_keys : Entry → List Key → Result (Unit {0})
unfolding has
require_keys e keys = require (has_all e keys) chain_error

-- `entry[k]`
abbrev pub get_item {ℓ} : {A : Type ℓ} → Option A → Result A
get_item none = err key_error
get_item (some a) = ok a

abbrev genesis_prev_hash : Option String
genesis_prev_hash = none

abbrev genesis_prev_hash_sentinel : String
genesis_prev_hash_sentinel = ""

abbrev pub prev_or_sentinel : Option String → String
prev_or_sentinel none = genesis_prev_hash_sentinel
prev_or_sentinel (some h) = h

-- The dict that `entry_hash` binds.
abbrev pub bind_fields : ℕ → String → Option String → Value
bind_fields seq payload prev = dict (
    entry "sequence" (integer (pos seq)) (
      entry "payload_hash" (text payload)
        (entry "prev_hash" (text (prev_or_sentinel prev)) no_entries)))

module _ (sha256 : List ℕ → String) where
  -- `entry_hash`
  unfoldable pub hash_entry : Entry → Result String
  unfolding require_keys
  hash_entry e = do
    require_keys e (Key.sequence ∷ Key.payload_hash ∷ Key.prev_hash ∷ [])
    prev ← get_item e.prev_hash
    seq ← get_item e.sequence
    payload ← get_item e.payload_hash
    sha256_hex sha256 (bind_fields seq payload prev)

  -- The two fields that the new entry takes from its predecessor.
  successor : Option Entry → Result (ℕ × Option String)
  unfolding require_keys
  successor none = ok (0, genesis_prev_hash)
  successor (some prev) = do
    require_keys prev (Key.sequence ∷ Key.entry_hash ∷ [])
    seq ← get_item prev.sequence
    h ← get_item prev.entry_hash
    ok (seq + 1, some h)

  unfoldable pub next_entry : Option Entry → String → Result Entry
  unfolding successor hash_entry
  next_entry prev_entry payload = do
    require (payload != "") chain_error
    link ← successor prev_entry
    let e : Entry = record {
      sequence = some link.0;
      payload_hash = some payload;
      prev_hash = some link.1;
      entry_hash = none;
    }
    h ← hash_entry e
    ok (record e { entry_hash = some h })

  -- The body of the loop of `verify_chain`, at position `i`.
  unfoldable pub entry_checks : ℕ → Option String → Entry → Bool
  unfolding hash_entry
  entry_checks i expected e =
      elim (require_keys e
        (Key.sequence ∷ Key.payload_hash ∷ Key.prev_hash ∷ Key.entry_hash ∷ [])) [
          | err _ ↦ false
          | ok _ ↦
              (e.sequence == some i)
              && (e.prev_hash == some expected)
              && elim (hash_entry e) [ ok h ↦ some h == e.entry_hash | err _ ↦ false ]
        ]

  unfoldable pub verify_from : ℕ → Option String → List Entry → Bool
  unfolding entry_checks
  verify_from i expected [] = true
  verify_from i expected (e ∷ es) = entry_checks i expected e && verify_from (i + 1) e.entry_hash es

  unfoldable pub verify_chain : List Entry → Bool
  unfolding verify_from
  verify_chain es = verify_from 0 genesis_prev_hash es
