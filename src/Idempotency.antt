-- ===== src/Idempotency.antt =====
-- apps/api/idempotency_store.py: the two stores of responses, under a tenant and a key. Both are the
-- list of their records; no two are of one tenant and key. A time to live is a number of microseconds.
pub mod Stores
use Prim.Native.Char.{Char, code}
use forensa.Prelude.{
  ℕ, suc, ◌+◌, ◌*◌, String, Bool, true, false, not, ◌&&◌, ◌||◌, Option, none, some, List, [], ◌∷◌,
  leb, ltb, filter, if◌then◌else◌, ◌==◌, ◌!=◌, nat_eq, string_eq, Result, ok, err,
  idempotency_conflict, ◌>>=◌,
}
use forensa.Hash.{Value, bytes, canonical_json, sha256_hex}

is_key_char : Char → Bool
is_key_char c =
    (leb 65 (code c) && leb (code c) 90)
    || (leb 97 (code c) && leb (code c) 122)
    || (leb 48 (code c) && leb (code c) 57)
    || code c == 95
    || code c == 45

all_key_chars : String → Bool
unfolding is_key_char
all_key_chars String.[] = true
all_key_chars (String.◌∷◌ c s) = is_key_char c && all_key_chars s

text_length : String → ℕ
text_length String.[] = 0
text_length (String.◌∷◌ c s) = suc (text_length s)

-- The whole text matches `^[A-Za-z0-9_-]{16,128}$`.
unfoldable pub is_valid_idempotency_key : String → Bool
unfolding all_key_chars text_length
is_valid_idempotency_key key =
    all_key_chars key && leb 16 (text_length key) && leb (text_length key) 128

unfoldable pub compute_body_hash : (List ℕ → String) → Value → Result String
compute_body_hash sha256 body = do bs ← canonical_json body; sha256_hex sha256 (bytes bs)

-- 24 hours.
abbrev pub default_ttl : ℕ
default_ttl = 24 * 3600 * 1000000

-- With the type of a response's body.
pub record StoredIdempotencyRecord (Body : Type 0) : Type 0 where
  pub tenant_id : ℕ
  pub key : String
  pub body_hash : String
  pub response_status : ℕ
  pub response_body : Body
  pub stored_at : ℕ
  pub expires_at : ℕ

module _ {Body : Type 0} where
  abbrev pub is_for : ℕ → String → StoredIdempotencyRecord Body → Bool
  is_for tenant key r = r.tenant_id == tenant && r.key == key

  unfoldable pub find_record :
      ℕ → String → List (StoredIdempotencyRecord Body) → Option (StoredIdempotencyRecord Body)
  find_record tenant key [] = none
  find_record tenant key (r ∷ rs) =
      if is_for tenant key r then some r else find_record tenant key rs

  -- `del self._records[(tenant_id, key)]`
  unfoldable pub delete_record :
      ℕ → String → List (StoredIdempotencyRecord Body) → List (StoredIdempotencyRecord Body)
  delete_record tenant key [] = []
  delete_record tenant key (r ∷ rs) =
      let rest = delete_record tenant key rs in if is_for tenant key r then rest else r ∷ rest

  check_hash :
      String → StoredIdempotencyRecord Body → Result (Option (StoredIdempotencyRecord Body))
  check_hash body_hash r =
      if r.body_hash != body_hash then err idempotency_conflict else ok (some r)

  -- `InMemoryIdempotencyStore`
  unfoldable pub lookup_or_claim :
      ℕ
      → ℕ
      → String
      → String
      → List (StoredIdempotencyRecord Body)
      → Result (Option (StoredIdempotencyRecord Body)) × List (StoredIdempotencyRecord Body)
  unfolding check_hash
  lookup_or_claim now tenant key body_hash records = elim (find_record tenant key records) [
    | none ↦ (ok none, records)
    | some existing ↦
        if leb existing.expires_at now
        then (ok none, delete_record tenant key records)
        else (check_hash body_hash existing, records)
  ]

  abbrev pub new_record : ℕ → ℕ → String → String → ℕ → Body → ℕ → StoredIdempotencyRecord Body
  new_record now tenant key body_hash status body ttl = record {
    tenant_id = tenant;
    key = key;
    body_hash = body_hash;
    response_status = status;
    response_body = body;
    stored_at = now;
    expires_at = now + ttl;
  }

  -- The first record of a key stays.
  unfoldable pub store :
      ℕ
      → ℕ
      → String
      → String
      → ℕ
      → Body
      → ℕ
      → List (StoredIdempotencyRecord Body)
      → List (StoredIdempotencyRecord Body)
  store now tenant key body_hash status body ttl records = elim (find_record tenant key records) [
    | none ↦ new_record now tenant key body_hash status body ttl ∷ records
    | some existing ↦ records
  ]

  -- `PostgresIdempotencyStore`: the query leaves the row of an expired record in the table.
  unfoldable pub lookup_row :
      ℕ
      → ℕ
      → String
      → String
      → List (StoredIdempotencyRecord Body)
      → Result (Option (StoredIdempotencyRecord Body))
  unfolding check_hash
  lookup_row now tenant key body_hash records =
      elim (find_record tenant key
        (filter (λ (r : StoredIdempotencyRecord Body). ltb now r.expires_at) records)) [
          | none ↦ ok none
          | some existing ↦ check_hash body_hash existing
        ]

  -- `INSERT … ON CONFLICT (tenant_id, key) DO NOTHING`
  unfoldable pub insert_row :
      ℕ
      → ℕ
      → String
      → String
      → ℕ
      → Body
      → ℕ
      → List (StoredIdempotencyRecord Body)
      → List (StoredIdempotencyRecord Body)
  insert_row now tenant key body_hash status body ttl records =
      elim (find_record tenant key records) [
        | none ↦ new_record now tenant key body_hash status body ttl ∷ records
        | some existing ↦ records
      ]
