-- ===== src/Events/Retry.antt =====
-- apps/api/routes/events.py: a retried request returns the first response and writes nothing.
use forensa.Prelude.{
  ℕ, ◌+◌, ◌<◌, String, ◌≡◌, ap, ◌∙◌, none, some, List, nat_eq, string_eq, if◌then◌else◌, ◌==◌, ok,
  err, Error, idempotency_conflict, arith,
}
use forensa.Hash.{Value}
use forensa.Ledger.{Event}
use forensa.Sign.{Ed25519}
use forensa.Auth.{Principal}
use forensa.Ingest
use forensa.Idempotency
use forensa.Idempotency.Stores.{store-lookup_or_claim}
use forensa.Events

abbrev Records : Type 0
Records = List (Idempotency.StoredIdempotencyRecord Events.EventCreated)

-- A lookup that answers a record changes nothing.
lookup_or_claim-same :
    (now tenant : ℕ) (key hash : String) (rs : Records)
    (r : Idempotency.StoredIdempotencyRecord Events.EventCreated)
    → (Idempotency.lookup_or_claim now tenant key hash rs).0 ≡ ok (some r)
    → (Idempotency.lookup_or_claim now tenant key hash rs).1 ≡ rs
unfolding Idempotency.lookup_or_claim
lookup_or_claim-same now tenant key hash rs r h = ground (arith, h)

lookup_or_claim-conflict :
    (now tenant : ℕ) (key hash : String) (rs : Records) (x : Error)
    → (Idempotency.lookup_or_claim now tenant key hash rs).0 ≡ err x
    → (Idempotency.lookup_or_claim now tenant key hash rs).1 ≡ rs
unfolding Idempotency.lookup_or_claim
lookup_or_claim-conflict now tenant key hash rs x h = ground (arith, h)

module _ (sha256 : List ℕ → String) (e : Ed25519) (services : Ingest.Services)
    (dump : Event → Value) where
  fresh_ingest-created :
      (draws : Ingest.Draws) (event : Event) (times : Events.Times) (key hash : String)
      (s s1 : Events.State) (body : Events.EventCreated)
      → Events.fresh_ingest sha256 e services dump draws event times (some (key, hash)) s
        ≡ (Events.created body, s1)
      → s1.records
        ≡ Idempotency.store times.stored_at event.tenant_id key hash 201 body
            Idempotency.default_ttl s.records
  unfolding Events.fresh_ingest Events.remember
  fresh_ingest-created draws event times key hash s s1 body h = ground (arith, h)

  with_key-created :
      (draws : Ingest.Draws) (event : Event) (times : Events.Times) (key hash : String)
      (s s1 : Events.State) (body : Events.EventCreated)
      → Events.with_key sha256 e services dump draws event times key hash s
        ≡ (Events.created body, s1)
      → ((Idempotency.lookup_or_claim times.looked_up_at event.tenant_id key hash s.records).0
          ≡ ok none)
        × (s1.records
            ≡ Idempotency.store times.stored_at event.tenant_id key hash 201 body
                Idempotency.default_ttl
                (Idempotency.lookup_or_claim times.looked_up_at event.tenant_id key hash
                  s.records).1)
  unfolding Events.with_key
  with_key-created draws event times key hash s s1 body h = ground (
    arith,
    h,
    fresh_ingest-created draws event times key hash
        (record s {
          records =
              (Idempotency.lookup_or_claim times.looked_up_at event.tenant_id key hash s.records).1;
        })
        s1 body,
  )

  with_key-answer :
      (draws : Ingest.Draws) (event : Event) (times : Events.Times) (key hash other : String)
      (s : Events.State) (r : Idempotency.StoredIdempotencyRecord Events.EventCreated)
      → (Idempotency.lookup_or_claim times.looked_up_at event.tenant_id key other s.records).0
        ≡ (if hash == other then ok (some r) else err idempotency_conflict)
      → Events.with_key sha256 e services dump draws event times key other s
        ≡ (if hash == other then Events.replayed r.response_body else Events.key_conflict, s)
  unfolding Events.with_key
  with_key-answer draws event times key hash other s r a = ground (
    arith,
    a,
    lookup_or_claim-same times.looked_up_at event.tenant_id key other s.records r,
    lookup_or_claim-conflict times.looked_up_at event.tenant_id key other s.records
        idempotency_conflict,
  )

  -- The second request of a key: by the hash of its body.
  with_key-again :
      (draws draws' : Ingest.Draws) (event event' : Event) (times times' : Events.Times)
      (key hash other : String) (s s1 : Events.State) (body : Events.EventCreated)
      → Events.with_key sha256 e services dump draws event times key hash s
        ≡ (Events.created body, s1)
      → event'.tenant_id ≡ event.tenant_id
      → times'.looked_up_at < times.stored_at + Idempotency.default_ttl
      → Events.with_key sha256 e services dump draws' event' times' key other s1
        ≡ (if hash == other then Events.replayed body else Events.key_conflict, s1)
  with_key-again draws draws' event event' times times' key hash other s s1 body h mine soon =
      let (claimed, left) = with_key-created draws event times key hash s s1 body h in
      let rs =
        (Idempotency.lookup_or_claim times.looked_up_at event.tenant_id key hash s.records).1 in
      let answer =
        store-lookup_or_claim times.looked_up_at times.stored_at times'.looked_up_at event.tenant_id
          key hash other 201 body Idempotency.default_ttl s.records claimed soon in
      let answer' : (Idempotency.lookup_or_claim times'.looked_up_at event'.tenant_id key other
            s1.records).0
          ≡ (if hash == other
              then ok (
                  some (
                    Idempotency.new_record times.stored_at event.tenant_id key hash 201 body
                      Idempotency.default_ttl))
              else err idempotency_conflict) =
        ap (λ t. (Idempotency.lookup_or_claim times'.looked_up_at t key other s1.records).0) mine
        ∙ ap (λ q. (Idempotency.lookup_or_claim times'.looked_up_at event.tenant_id key other q).0)
            left
        ∙ answer in
      with_key-answer draws' event' times' key hash other s1
        (Idempotency.new_record times.stored_at event.tenant_id key hash 201 body
          Idempotency.default_ttl)
        answer'

  -- With the idempotency store in memory, after a request with an idempotency key that was
  -- answered 201, a second request of the same tenant and agent with that key, looked up within
  -- 24 hours of the store, leaves the ledger and the store as they are: it gets the first
  -- response if its body hashes alike, and a conflict if not.
  pub submit_event-again :
      (principal : Principal) (draws draws' : Ingest.Draws) (event event' : Event)
      (times times' : Events.Times) (key hash other : String) (s s1 : Events.State)
      (body : Events.EventCreated)
      → Events.submit_event sha256 e services dump principal draws event times (some key) s
        ≡ (Events.created body, s1)
      → event'.tenant_id ≡ event.tenant_id
      → event'.agent_id ≡ event.agent_id
      → Idempotency.compute_body_hash sha256 (dump event) ≡ ok hash
      → Idempotency.compute_body_hash sha256 (dump event') ≡ ok other
      → times'.looked_up_at < times.stored_at + Idempotency.default_ttl
      → Events.submit_event sha256 e services dump principal draws' event' times' (some key) s1
        ≡ (if hash == other then Events.replayed body else Events.key_conflict, s1)
  unfolding Events.submit_event Events.by_header
  submit_event-again principal draws draws' event event' times times' key hash other s s1 body h t a
        hh ho soon =
      ground (
        arith,
        h,
        t,
        a,
        hh,
        ho,
        with_key-again draws draws' event event' times times' key hash other s s1 body,
      )
