-- ===== src/Examples/Ingests.antt =====
-- apps/api/ingest_service.py and packages/ledger/repositories.py at concrete inputs: ingests and the
-- queries after them.
use forensa.Prelude.{◌+◌, length, take, drop}
use forensa.Repositories.{list_receipts_for_tenant, list_receipts_for_tenant_cursor}
use forensa.Repositories.Pages.{list_receipts_for_tenant_cursor-offset}
use forensa.Prelude.{ℕ, ◌≡◌, refl, true, false, none, some, List, [], ◌∷◌, map, Result, ok, err}
use forensa.Ledger.{Db, empty_db, Event, active, ReceiptRow}
use forensa.Workflow.{
  valid_transition, required_role, find_bundle, set_status, active_bundles, no_other_active,
  load_bundle, write_approval, filled, enforce_segregation, flush_status, transition, propose,
  review, approve, supersede_reason, supersede_prior, replace_active, activate, supersede,
}
use forensa.Bundles.{is_new_bundle, flush_bundle, write_bundle, get_active_bundle_for_tenant}
use forensa.Repositories
use forensa.Repositories.Linked.{Linked, head_receipt, get_latest-head}
use forensa.Ingest
use forensa.Ingest.Keeps.{Keeps, get_active_bundle-Keeps}
use forensa.Ingest.Persist.{Persisted, persist-Persisted}
use forensa.Ingest.Chain.{AllLinked, ingest_all-AllLinked}
use forensa.Policy
use forensa.Examples.Data.{bundle, schema, services, draws, event, bootstrap_draws}
use forensa.Prelude.{uuid_str, hex_text, is_blank}
use forensa.Json.{
  insert_member, sort_keys, digits_from, digits, escape_char, escape, quote, write_int, write_bool,
  write, utf8_char, utf8, dumps,
}
use forensa.Hash.{b64encode, normalise, canonical_json, sha256_hex}
use forensa.Sign.{load_private_key, load_public_key, sign, verify}
use forensa.Policy.{
  is_sha256_hex, make_verdict, make_snapshot, classify, evaluate, make_bundle, compute_content_hash,
  build_bundle, verify_content_hash, require_content_hash, capture_snapshot, resolve_snapshot,
  snapshot_matches_bundle, resolve_replay_policy,
}
use forensa.Receipts.{
  bind_fields, make_receipt, chain_link, validate_inputs, compute_receipt_hash,
  recompute_receipt_hash, sign_optional, witness_hash, build_receipt,
}
use forensa.Repositories.{
  is_new_snapshot, is_new_event, is_new_receipt, bundle_exists, allowed_triple, flush_triple,
  write_event_with_receipt, get_latest_receipt_for_tenant,
}
use forensa.Ingest.{judge, build_next, record_receipt, persist, ingest_event, ingest_all}
use forensa.Ingest.Bootstrap.{auto_activate, finish, bootstrap, get_active_bundle}
use forensa.Examples.Data.{toy_sha256, toy_ed25519}
use forensa.Examples.Receipts.{snapshot}

abbrev with_bundle : Db
with_bundle = record empty_db { bundles = record { bundle = bundle; status = active } ∷ [] }

abbrev persisted : Result Ingest.IngestResult × Db
persisted = persist toy_sha256 toy_ed25519 services draws event snapshot with_bundle

abbrev result_or : Result Ingest.IngestResult → Ingest.IngestResult
result_or (ok r) = r
result_or (err _) = record {
  event_id = 0;
  receipt_id = 0;
  policy_snapshot_id = 0;
  receipt_hash = "";
  integrity_ok = false;
}

returned : persisted ≡ (ok (result_or persisted.0), persisted.1)
unfolding uuid_str hex_text is_blank insert_member sort_keys digits_from digits escape_char escape
    quote write_int write_bool write utf8_char utf8 dumps b64encode normalise canonical_json
    sha256_hex load_private_key load_public_key sign verify is_sha256_hex make_verdict make_snapshot
    classify evaluate make_bundle compute_content_hash build_bundle verify_content_hash
    require_content_hash capture_snapshot resolve_snapshot snapshot_matches_bundle
    resolve_replay_policy bind_fields make_receipt chain_link validate_inputs compute_receipt_hash
    recompute_receipt_hash sign_optional witness_hash build_receipt is_new_snapshot is_new_event
    is_new_receipt bundle_exists allowed_triple flush_triple write_event_with_receipt
    get_latest_receipt_for_tenant judge build_next record_receipt persist ingest_event ingest_all
    toy_sha256 toy_ed25519
returned = refl

persist-Persisted_example :
    Persisted toy_sha256 toy_ed25519 services draws event snapshot with_bundle persisted.1
      (result_or persisted.0)
persist-Persisted_example =
    persist-Persisted toy_sha256 toy_ed25519 services draws event snapshot with_bundle persisted.1
      (result_or persisted.0) returned

-- Two events with providers over the database, the second with ids that are in use.
abbrev calls : List (Ingest.Services × Ingest.Draws × Event)
calls =
    (services, draws, event)
    ∷ (services, record draws { snapshot_id = 51; receipt_id = 52 }, record event { id = 53 })
    ∷ (services, draws, event)
    ∷ []

provider-Keeps : (tenant : ℕ) → Keeps (services.get_active_bundle tenant)
provider-Keeps tenant =
    get_active_bundle-Keeps toy_sha256 schema Policy.default_content true bootstrap_draws tenant

ingest_all-AllLinked_example :
    AllLinked toy_sha256 (ingest_all toy_sha256 toy_ed25519 calls empty_db)
ingest_all-AllLinked_example =
    ingest_all-AllLinked toy_sha256 toy_ed25519 calls
      (provider-Keeps, (provider-Keeps, (provider-Keeps, tt)))

get_active_bundle-Keeps_test :
    (get_active_bundle toy_sha256 schema Policy.default_content true bootstrap_draws 1
      empty_db).1.receipts
    ≡ []
get_active_bundle-Keeps_test =
    get_active_bundle-Keeps toy_sha256 schema Policy.default_content true bootstrap_draws 1 empty_db

-- Two of the three were recorded: the third broke a key.
sequences : List (Ingest.Services × Ingest.Draws × Event) → List ℕ
sequences cs =
    map (λ (r : ReceiptRow). r.receipt.sequence)
      (ingest_all toy_sha256 toy_ed25519 cs empty_db).receipts

sequences_test : sequences calls ≡ 1 ∷ 0 ∷ []
unfolding uuid_str hex_text is_blank insert_member sort_keys digits_from digits escape_char escape
    quote write_int write_bool write utf8_char utf8 dumps b64encode normalise canonical_json
    sha256_hex load_private_key load_public_key sign verify is_sha256_hex make_verdict make_snapshot
    classify evaluate make_bundle compute_content_hash build_bundle verify_content_hash
    require_content_hash capture_snapshot resolve_snapshot snapshot_matches_bundle
    resolve_replay_policy bind_fields make_receipt chain_link validate_inputs compute_receipt_hash
    recompute_receipt_hash sign_optional witness_hash build_receipt valid_transition required_role
    find_bundle set_status active_bundles no_other_active load_bundle write_approval filled
    enforce_segregation flush_status transition propose review approve supersede_reason
    supersede_prior replace_active activate supersede is_new_bundle flush_bundle write_bundle
    get_active_bundle_for_tenant is_new_snapshot is_new_event is_new_receipt bundle_exists
    allowed_triple flush_triple write_event_with_receipt get_latest_receipt_for_tenant judge
    build_next record_receipt persist ingest_event ingest_all auto_activate finish bootstrap
    get_active_bundle toy_sha256 toy_ed25519 sequences
sequences_test = refl

abbrev after_persist : Db
after_persist = persisted.1

after_persist-Linked : Linked toy_sha256 1 (Repositories.of_tenant 1 after_persist.receipts)
unfolding uuid_str hex_text is_blank insert_member sort_keys digits_from digits escape_char escape
    quote write_int write_bool write utf8_char utf8 dumps b64encode normalise canonical_json
    sha256_hex load_private_key load_public_key sign verify is_sha256_hex make_verdict make_snapshot
    classify evaluate make_bundle compute_content_hash build_bundle verify_content_hash
    require_content_hash capture_snapshot resolve_snapshot snapshot_matches_bundle
    resolve_replay_policy bind_fields make_receipt chain_link validate_inputs compute_receipt_hash
    recompute_receipt_hash sign_optional witness_hash build_receipt is_new_snapshot is_new_event
    is_new_receipt bundle_exists allowed_triple flush_triple write_event_with_receipt
    get_latest_receipt_for_tenant judge build_next record_receipt persist ingest_event ingest_all
    toy_sha256 toy_ed25519
after_persist-Linked = (refl, refl, (refl, refl), refl, tt)

one_receipt : 1 + 0 ≡ length (Repositories.of_tenant 1 after_persist.receipts)
unfolding uuid_str hex_text is_blank insert_member sort_keys digits_from digits escape_char escape
    quote write_int write_bool write utf8_char utf8 dumps b64encode normalise canonical_json
    sha256_hex load_private_key load_public_key sign verify is_sha256_hex make_verdict make_snapshot
    classify evaluate make_bundle compute_content_hash build_bundle verify_content_hash
    require_content_hash capture_snapshot resolve_snapshot snapshot_matches_bundle
    resolve_replay_policy bind_fields make_receipt chain_link validate_inputs compute_receipt_hash
    recompute_receipt_hash sign_optional witness_hash build_receipt is_new_snapshot is_new_event
    is_new_receipt bundle_exists allowed_triple flush_triple write_event_with_receipt
    get_latest_receipt_for_tenant judge build_next record_receipt persist ingest_event ingest_all
    toy_sha256 toy_ed25519
one_receipt = refl

get_latest-head_test :
    get_latest_receipt_for_tenant 1 after_persist
    ≡ (ok (head_receipt (Repositories.of_tenant 1 after_persist.receipts)), after_persist)
get_latest-head_test = get_latest-head toy_sha256 1 after_persist after_persist-Linked

list_receipts_for_tenant_cursor-offset_example :
    (list_receipts_for_tenant_cursor 1 10 (some 1) none none after_persist
      ≡ list_receipts_for_tenant 1 10 0 none none after_persist)
    × (list_receipts_for_tenant 1 10 0 none none after_persist ≡ (
      ok (
          map Repositories.receipt_of
            (take 10 (drop 0 (Repositories.of_tenant 1 after_persist.receipts)))),
      after_persist,
    ))
list_receipts_for_tenant_cursor-offset_example =
    list_receipts_for_tenant_cursor-offset toy_sha256 1 10 0 1 after_persist after_persist-Linked
      one_receipt
