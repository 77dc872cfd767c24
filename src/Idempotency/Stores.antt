-- ===== src/Idempotency/Stores.antt =====
-- apps/api/idempotency_store.py: what a store answers for what was put into it.
use forensa.Prelude.{
  ℕ, ◌+◌, ◌<◌, ◌≤◌, String, ◌≡◌, refl, Bool, Option, none, some, List, [], ◌∷◌, ltb, filter,
  if◌then◌else◌, ◌==◌, nat_eq, string_eq, eq_iff, beq_refl, ok, err, idempotency_conflict, arith,
}
use forensa.Idempotency

module _ {Body : Type 0} where
  -- No two records are of one tenant and key.
  abbrev pub Keyed : List (Idempotency.StoredIdempotencyRecord Body) → Type 0
  Keyed [] = Unit
  Keyed (r ∷ rs) = (Idempotency.find_record r.tenant_id r.key rs ≡ none) × Keyed rs

  delete_record-find_record :
      (tenant : ℕ) (key : String) (rs : List (Idempotency.StoredIdempotencyRecord Body))
      → Idempotency.find_record tenant key (Idempotency.delete_record tenant key rs) ≡ none
  unfolding Idempotency.find_record Idempotency.delete_record
  delete_record-find_record tenant key [] = refl
  delete_record-find_record tenant key (r ∷ rs) =
      ground (arith, delete_record-find_record tenant key rs)

  abbrev kept_if :
      (Idempotency.StoredIdempotencyRecord Body → Bool)
      → Option (Idempotency.StoredIdempotencyRecord Body)
      → Option (Idempotency.StoredIdempotencyRecord Body)
  kept_if p none = none
  kept_if p (some r) = if p r then some r else none

  find_record-filter :
      (p : Idempotency.StoredIdempotencyRecord Body → Bool) (tenant : ℕ) (key : String)
      (rs : List (Idempotency.StoredIdempotencyRecord Body))
      → Keyed rs
      → Idempotency.find_record tenant key (filter p rs)
        ≡ kept_if p (Idempotency.find_record tenant key rs)
  unfolding Idempotency.find_record
  find_record-filter p tenant key [] k = refl
  find_record-filter p tenant key (r ∷ rs) k =
      ground (arith, find_record-filter p tenant key rs k.1, k.0, eq_iff r.key key)

  -- On a table without two records of one tenant and key, the in-memory and the Postgres store
  -- answer every lookup alike.
  pub lookup_row-eq-lookup_or_claim :
      (now tenant : ℕ) (key hash : String) (rs : List (Idempotency.StoredIdempotencyRecord Body))
      → Keyed rs
      → Idempotency.lookup_row now tenant key hash rs
        ≡ (Idempotency.lookup_or_claim now tenant key hash rs).0
  unfolding Idempotency.lookup_row Idempotency.lookup_or_claim
  lookup_row-eq-lookup_or_claim now tenant key hash rs k = ground (
    arith,
    find_record-filter (λ (r : Idempotency.StoredIdempotencyRecord Body). ltb now r.expires_at)
        tenant key rs k,
  )

  -- After a lookup that found nothing and a store, the in-memory store answers a lookup before
  -- the record expires with the stored response if the body hash is the same, and with a
  -- conflict if not.
  pub store-lookup_or_claim :
      (now stored later tenant : ℕ) (key hash other : String) (status : ℕ) (body : Body) (ttl : ℕ)
      (rs : List (Idempotency.StoredIdempotencyRecord Body))
      → (Idempotency.lookup_or_claim now tenant key hash rs).0 ≡ ok none
      → later < stored + ttl
      → (Idempotency.lookup_or_claim later tenant key other (
          Idempotency.store stored tenant key hash status body ttl
            (Idempotency.lookup_or_claim now tenant key hash rs).1)).0
        ≡ (if hash == other
            then ok (some (Idempotency.new_record stored tenant key hash status body ttl))
            else err idempotency_conflict)
  unfolding Idempotency.lookup_or_claim Idempotency.store Idempotency.find_record
  store-lookup_or_claim now stored later tenant key hash other status body ttl rs claimed h =
      ground
        (arith, claimed, h, beq_refl tenant, beq_refl key, delete_record-find_record tenant key rs)

  -- On a table without two records of one tenant and key, where the record of a key has
  -- expired, the Postgres store finds nothing for that key, and finds nothing at any later time
  -- either after a response has been stored under it.
  pub insert_row-expired :
      (now stored later tenant : ℕ) (key hash other : String) (status : ℕ) (body : Body) (ttl : ℕ)
      (rs : List (Idempotency.StoredIdempotencyRecord Body))
      (r : Idempotency.StoredIdempotencyRecord Body)
      → Keyed rs
      → Idempotency.find_record tenant key rs ≡ some r
      → r.expires_at ≤ now
      → now ≤ later
      → (Idempotency.lookup_row now tenant key hash rs ≡ ok none)
        × (Idempotency.lookup_row later tenant key other
              (Idempotency.insert_row stored tenant key hash status body ttl rs)
            ≡ ok none)
  unfolding Idempotency.lookup_row Idempotency.insert_row
  insert_row-expired now stored later tenant key hash other status body ttl rs r k found old le =
      ground (
        arith,
        found,
        find_record-filter (λ (r : Idempotency.StoredIdempotencyRecord Body). ltb now r.expires_at)
            tenant key rs k,
        find_record-filter
            (λ (r : Idempotency.StoredIdempotencyRecord Body). ltb later r.expires_at) tenant key rs
            k,
      )
