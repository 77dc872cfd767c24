-- ===== src/Chain/Seal.antt =====
-- What the checks of `verify_chain` at one entry amount to: the entry is the sealed one.
use forensa.Prelude.{
  ℕ, String, ◌≡◌, refl, true, Option, none, some, List, beq_refl, nat_eq, string_eq, option_eq,
  option_beq_iff, eq_iff, ok, arith,
}
use forensa.Json.{Json, pos, int, str, obj, member, end, sort_keys, insert_member, dumps}
use forensa.Json.Unique.{dumps_injective}
use forensa.Hash.{sha256_hex, canonical_json, normalise}
use forensa.Chain.{Entry, prev_or_sentinel, hash_entry, entry_checks}

abbrev pub bound : ℕ → String → Option String → Json
bound seq payload prev = obj (
    member "sequence" (int (pos seq))
      (member "payload_hash" (str payload) (member "prev_hash" (str (prev_or_sentinel prev)) end)))

-- The hash determines what it binds, but for the sentinel.
pub bound_injective :
    (i j : ℕ) (x y : String) (p q : Option String)
    → dumps (bound i x p) ≡ dumps (bound j y q)
    → (i ≡ j) × (x ≡ y) × (prev_or_sentinel p ≡ prev_or_sentinel q)
bound_injective i j x y p q h =
    fields (unfold sort_keys insert_member in dumps_injective (bound i x p) (bound j y q) h)
  where
    fields :
        obj (
            member "payload_hash"
              (str x)
              (member "prev_hash" (str (prev_or_sentinel p)) (member "sequence" (int (pos i)) end)))
          ≡ obj (
              member "payload_hash" (str y) (
                member "prev_hash"
                  (str (prev_or_sentinel q))
                  (member "sequence" (int (pos j)) end)))
        → (i ≡ j) × (x ≡ y) × (prev_or_sentinel p ≡ prev_or_sentinel q)
    fields e = (cc e, cc e, cc e)

module _ (sha256 : List ℕ → String) where
  abbrev pub seal : ℕ → String → Option String → String
  seal i payload prev = sha256 (dumps (bound i payload prev))

  abbrev pub sealed : ℕ → String → Option String → Entry
  sealed i payload prev = record {
    sequence = some i;
    payload_hash = some payload;
    prev_hash = some prev;
    entry_hash = some (seal i payload prev);
  }

  pub hash_entry-eq-seal :
      (i : ℕ) (payload : String) (prev h : Option String)
      → hash_entry sha256 (record {
        sequence = some i;
        payload_hash = some payload;
        prev_hash = some prev;
        entry_hash = h;
      })
        ≡ ok (seal i payload prev)
  unfolding hash_entry sha256_hex canonical_json normalise
  hash_entry-eq-seal i payload prev h = refl

  pub entry_checks-sealed :
      (i : ℕ) (payload : String) (prev : Option String)
      → entry_checks sha256 i prev (sealed i payload prev) ≡ true
  unfolding entry_checks sha256_hex canonical_json normalise
  entry_checks-sealed i payload prev =
      ground (arith, beq_refl i, beq_refl prev, beq_refl (seal i payload prev))

  pub sealed_of_checks :
      (i : ℕ) (prev : Option String) (e : Entry)
      → entry_checks sha256 i prev e ≡ true
      → (payload : String) × (e ≡ sealed i payload prev)
  unfolding entry_checks sha256_hex canonical_json normalise
  sealed_of_checks i prev e = of_fields e.sequence e.payload_hash e.prev_hash e.entry_hash
    where
      of_fields :
          (s : Option ℕ) (p : Option String) (q : Option (Option String)) (h : Option String)
          → entry_checks sha256 i prev
              (record { sequence = s; payload_hash = p; prev_hash = q; entry_hash = h })
            ≡ true
          → (payload : String) × (record {
            sequence = s;
            payload_hash = p;
            prev_hash = q;
            entry_hash = h;
          }
              ≡ sealed i payload prev)
      of_fields none p q h c = cc
      of_fields (some s) none q h c = cc
      of_fields (some s) (some p) none h c = cc
      of_fields (some s) (some p) (some q) none c = cc
      of_fields (some s) (some p) (some q) (some h) c =
          (p, ground (arith, option_beq_iff q prev, eq_iff (seal s p q) h))
