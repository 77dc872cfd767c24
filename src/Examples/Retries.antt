-- ===== src/Examples/Retries.antt =====
-- apps/api/idempotency_store.py and routes/events.py at concrete inputs: retried requests.
use forensa.Prelude.{
  ℕ, String, ◌≡◌, refl, false, none, some, List, [], ◌∷◌, ok, err, arith, if◌then◌else◌, ◌==◌,
  string_eq,
}
use forensa.Hash.{Value}
use forensa.Ledger.{empty_db, Event}
use forensa.Events
use forensa.Events.Retry.{submit_event-again}
use forensa.Auth.{Principal}
use forensa.Idempotency
use forensa.Idempotency.Stores.{
  lookup_row-eq-lookup_or_claim, store-lookup_or_claim, insert_row-expired,
}
use forensa.Examples.Data.{services, draws, event, payload}
use forensa.Prelude.{uuid_str, hex_text, is_blank}
use forensa.Json.{
  insert_member, sort_keys, digits_from, digits, escape_char, escape, quote, write_int, write_bool,
  write, utf8_char, utf8, dumps,
}
use forensa.Hash.{b64encode, normalise, canonical_json, sha256_hex}
use forensa.Sign.{load_private_key, load_public_key, sign, verify}
use forensa.Policy.{
  is_sha256_hex, make_verdict, make_snapshot, classify, evaluate, make_bundle, compute_content_hash,
  build_bundle, verify_content_hash, require_content_hash, capture_snapshot, resolve_snapshot,
  snapshot_matches_bundle, resolve_replay_policy,
}
use forensa.Receipts.{
  bind_fields, make_receipt, chain_link, validate_inputs, compute_receipt_hash,
  recompute_receipt_hash, sign_optional, witness_hash, build_receipt,
}
use forensa.Workflow.{
  valid_transition, required_role, find_bundle, set_status, active_bundles, no_other_active,
  load_bundle, write_approval, filled, enforce_segregation, flush_status, transition, propose,
  review, approve, supersede_reason, supersede_prior, replace_active, activate, supersede,
}
use forensa.Bundles.{is_new_bundle, flush_bundle, write_bundle, get_active_bundle_for_tenant}
use forensa.Repositories.{
  is_new_snapshot, is_new_event, is_new_receipt, bundle_exists, allowed_triple, flush_triple,
  write_event_with_receipt, get_latest_receipt_for_tenant,
}
use forensa.Ingest.{judge, build_next, record_receipt, persist, ingest_event, ingest_all}
use forensa.Ingest.Bootstrap.{auto_activate, finish, bootstrap, get_active_bundle}
use forensa.Idempotency.{
  is_valid_idempotency_key, compute_body_hash, find_record, delete_record, lookup_or_claim, store,
  lookup_row, insert_row,
}
use forensa.Events.{remember, fresh_ingest, with_key, by_header, submit_event}
use forensa.Examples.Data.{toy_sha256, toy_ed25519}

abbrev start : Events.State
start = record { db = empty_db; records = [] }

abbrev principal : Principal
principal = record { tenant_id = 1; agent_id = 2; agent_slug = "buyer"; scopes = [] }

abbrev times : Events.Times
times = record { looked_up_at = 300; persisted_at = 301; stored_at = 302 }

abbrev retry_times : Events.Times
retry_times = record { looked_up_at = 400; persisted_at = 401; stored_at = 402 }

abbrev dump : Event → Value
dump e = e.payload

abbrev retry_key : String
retry_key = "retry-key_0123456789"

abbrev reply : Events.Reply × Events.State
reply =
    submit_event toy_sha256 toy_ed25519 services dump principal draws event times (some retry_key)
      start

abbrev body_of : Events.Reply → Events.EventCreated
body_of (Events.created b) = b
body_of _ = record {
  event_id = "";
  receipt_id = "";
  policy_snapshot_id = "";
  receipt_hash = "";
  integrity_ok = false;
  persisted_at = 0;
}

created : reply ≡ (Events.created (body_of reply.0), reply.1)
unfolding uuid_str hex_text is_blank insert_member sort_keys digits_from digits escape_char escape
    quote write_int write_bool write utf8_char utf8 dumps b64encode normalise canonical_json
    sha256_hex load_private_key load_public_key sign verify is_sha256_hex make_verdict make_snapshot
    classify evaluate make_bundle compute_content_hash build_bundle verify_content_hash
    require_content_hash capture_snapshot resolve_snapshot snapshot_matches_bundle
    resolve_replay_policy bind_fields make_receipt chain_link validate_inputs compute_receipt_hash
    recompute_receipt_hash sign_optional witness_hash build_receipt valid_transition required_role
    find_bundle set_status active_bundles no_other_active load_bundle write_approval filled
    enforce_segregation flush_status transition propose review approve supersede_reason
    supersede_prior replace_active activate supersede is_new_bundle flush_bundle write_bundle
    get_active_bundle_for_tenant is_new_snapshot is_new_event is_new_receipt bundle_exists
    allowed_triple flush_triple write_event_with_receipt get_latest_receipt_for_tenant judge
    build_next record_receipt persist ingest_event ingest_all auto_activate finish bootstrap
    get_active_bundle is_valid_idempotency_key compute_body_hash find_record delete_record
    lookup_or_claim store lookup_row insert_row remember fresh_ingest with_key by_header
    submit_event toy_sha256 toy_ed25519
created = refl

abbrev body_hash : String
body_hash = elim (compute_body_hash toy_sha256 payload) [ ok h ↦ h | err _ ↦ "" ]

hashed : compute_body_hash toy_sha256 payload ≡ ok body_hash
unfolding insert_member sort_keys digits_from digits escape_char escape quote write_int write_bool
    write utf8_char utf8 dumps b64encode normalise canonical_json sha256_hex
    is_valid_idempotency_key compute_body_hash find_record delete_record lookup_or_claim store
    lookup_row insert_row toy_sha256 toy_ed25519
hashed = refl

submit_event-again_example :
    submit_event toy_sha256 toy_ed25519 services dump principal draws event retry_times
      (some retry_key)
      reply.1
    ≡ (
      if body_hash == body_hash then Events.replayed (body_of reply.0) else Events.key_conflict,
      reply.1,
    )
submit_event-again_example =
    submit_event-again toy_sha256 toy_ed25519 services dump principal draws draws event event times
      retry_times retry_key body_hash body_hash start reply.1 (body_of reply.0) created refl refl
      hashed hashed (omega arith)

abbrev stored : Idempotency.StoredIdempotencyRecord ℕ
stored = Idempotency.new_record 100 1 "k" "h" 201 7 50

abbrev table : List (Idempotency.StoredIdempotencyRecord ℕ)
table = stored ∷ []

table-Keyed : forensa.Idempotency.Stores.Keyed table
unfolding is_valid_idempotency_key compute_body_hash find_record delete_record lookup_or_claim store
    lookup_row insert_row
table-Keyed = (refl, tt)

lookup_row-eq-lookup_or_claim_example :
    lookup_row 120 1 "k" "other" table ≡ (lookup_or_claim 120 1 "k" "other" table).0
lookup_row-eq-lookup_or_claim_example =
    lookup_row-eq-lookup_or_claim 120 1 "k" "other" table table-Keyed

claimed : (lookup_or_claim 200 1 "k" "h" table).0 ≡ ok none
unfolding is_valid_idempotency_key compute_body_hash find_record delete_record lookup_or_claim store
    lookup_row insert_row
claimed = refl

store-lookup_or_claim_example :
    (lookup_or_claim 220 1 "k" "h"
      (store 201 1 "k" "h" 201 8 50 (lookup_or_claim 200 1 "k" "h" table).1)).0
    ≡ ok (some (Idempotency.new_record 201 1 "k" "h" 201 8 50))
store-lookup_or_claim_example =
    store-lookup_or_claim 200 201 220 1 "k" "h" "h" 201 8 50 table claimed (omega arith)

held : find_record 1 "k" table ≡ some stored
unfolding is_valid_idempotency_key compute_body_hash find_record delete_record lookup_or_claim store
    lookup_row insert_row
held = refl

insert_row-expired_example :
    (lookup_row 200 1 "k" "h" table ≡ ok none)
    × (lookup_row 220 1 "k" "h" (insert_row 201 1 "k" "h" 201 8 50 table) ≡ ok none)
insert_row-expired_example =
    insert_row-expired 200 201 220 1 "k" "h" "h" 201 8 50 table stored table-Keyed held
      (omega arith) (omega arith)
