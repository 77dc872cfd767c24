-- ===== src/Events.antt =====
-- apps/api/routes/events.py: `POST /v1/events`. The session of the request is the transaction of
-- `ingest_event`; the commit after the response is not told from it. `dump` is pydantic's
-- `event.model_dump(…)` of what the body hash covers. The idempotency store is the one in memory.
pub mod Retry
use forensa.Prelude.{
  ℕ, String, Bool, true, false, Option, none, some, List, nat_eq, if◌then◌else◌, ◌==◌, ◌!=◌, Result,
  ok, err, Error, ingest_service_error, idempotency_conflict, uuid_str,
}
use forensa.Hash.{Value}
use forensa.Ledger.{Db, Event}
use forensa.Sign.{Ed25519}
use forensa.Auth.{Principal}
use forensa.Ingest.{Services, Draws, IngestResult, ingest_event}
use forensa.Idempotency.{
  StoredIdempotencyRecord, is_valid_idempotency_key, compute_body_hash, lookup_or_claim, store,
  default_ttl,
}

pub record EventCreated : Type 0 where
  pub event_id : String
  pub receipt_id : String
  pub policy_snapshot_id : String
  pub receipt_hash : String
  pub integrity_ok : Bool
  pub persisted_at : ℕ

-- The times of one request, in order.
pub record Times : Type 0 where
  pub looked_up_at : ℕ
  pub persisted_at : ℕ
  pub stored_at : ℕ

-- The two 403s, 400, 409, 422, an exception that no handler takes, and the two 201s.
pub data Reply : Type 0 where
  tenant_mismatch agent_mismatch key_malformed key_conflict ingest_failed : Reply
  unhandled : Error → Reply
  replayed created : EventCreated → Reply

pub record State : Type 0 where
  pub db : Db
  pub records : List (StoredIdempotencyRecord EventCreated)

created_of : IngestResult → ℕ → EventCreated
created_of res persisted_at = record {
  event_id = uuid_str res.event_id;
  receipt_id = uuid_str res.receipt_id;
  policy_snapshot_id = uuid_str res.policy_snapshot_id;
  receipt_hash = res.receipt_hash;
  integrity_ok = res.integrity_ok;
  persisted_at = persisted_at;
}

abbrev refused : Error → Reply
refused ingest_service_error = ingest_failed
refused x = unhandled x

-- The store after a response, where the request had a key.
unfoldable pub remember :
    Event
    → Times
    → Option (String × String)
    → EventCreated
    → List (StoredIdempotencyRecord EventCreated)
    → List (StoredIdempotencyRecord EventCreated)
remember event times none body records = records
remember event times (some (key, hash)) body records =
    store times.stored_at event.tenant_id key hash 201 body default_ttl records

module _ (sha256 : List ℕ → String) (e : Ed25519) (services : Services) (dump : Event → Value) where
  unfoldable pub fresh_ingest :
      Draws → Event → Times → Option (String × String) → State → Reply × State
  unfolding created_of
  fresh_ingest draws event times key s =
      let (res, db) = ingest_event sha256 e services draws event s.db in
      elim res [
        | err x ↦ (refused x, record s { db = db })
        | ok res ↦
            let body = created_of res times.persisted_at in
            (created body, record { db = db; records = remember event times key body s.records })
      ]

  unfoldable pub with_key : Draws → Event → Times → String → String → State → Reply × State
  with_key draws event times key hash s =
      let (found, records) =
        lookup_or_claim times.looked_up_at event.tenant_id key hash s.records in
      elim found [
        | err _ ↦ (key_conflict, record s { records = records })
        | ok (some cached) ↦ (replayed cached.response_body, record s { records = records })
        | ok none ↦
            fresh_ingest draws event times (some (key, hash)) (record s { records = records })
      ]

  unfoldable pub by_header : Draws → Event → Times → Option String → State → Reply × State
  by_header draws event times none s = fresh_ingest draws event times none s
  by_header draws event times (some key) s =
      if is_valid_idempotency_key key
      then elim (compute_body_hash sha256 (dump event)) [
        | err x ↦ (unhandled x, s)
        | ok hash ↦ with_key draws event times key hash s
      ]
      else (key_malformed, s)

  unfoldable pub submit_event :
      Principal → Draws → Event → Times → Option String → State → Reply × State
  submit_event principal draws event times key s =
      if event.tenant_id != principal.tenant_id
      then (tenant_mismatch, s)
      else if event.agent_id != principal.agent_id
      then (agent_mismatch, s)
      else by_header draws event times key s
