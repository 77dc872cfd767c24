-- ===== src/Examples/Anchors.antt =====
-- packages/ledger/anchor.py at concrete inputs: a day with two receipts, anchored once.
use forensa.Prelude.{
  ℕ, ◌/◌, ◌%◌, ◌≤◌, ◌≡◌, ◌↔◌, refl, true, none, some, List, [], ◌∷◌, Result, ok, err,
}
use forensa.Ledger.{empty_db, Db, Receipt, ReceiptRow}
use forensa.Repositories
use forensa.Repositories.Linked.{Linked}
use forensa.Anchors
use forensa.Anchors.{
  AnchorCall, AnchorRow, AnchorResult, TimestampClient, DateTime, aware, anchored, deferred,
}
use forensa.Anchors.Table.{IsSound}
use forensa.Anchors.Days.{day_bounds-IsDay}
use forensa.Anchors.Runs.{bounds_of, new_row, anchor_runs-IsSound, anchor_runs-keep}
use forensa.Anchors.Proof.{AreReceipts, IsRow, anchor_day-verifies}
use forensa.Examples.Receipts.{first, second}
use forensa.Prelude.{uuid_str, hex_text, is_blank}
use forensa.Json.{
  insert_member, sort_keys, digits_from, digits, escape_char, escape, quote, write_int, write_bool,
  write, utf8_char, utf8, dumps,
}
use forensa.Hash.{b64encode, normalise, canonical_json, sha256_hex}
use forensa.Sign.{load_private_key, load_public_key, sign, verify}
use forensa.Policy.{
  is_sha256_hex, make_verdict, make_snapshot, classify, evaluate, make_bundle, compute_content_hash,
  build_bundle, verify_content_hash, require_content_hash, capture_snapshot, resolve_snapshot,
  snapshot_matches_bundle, resolve_replay_policy,
}
use forensa.Receipts.{
  bind_fields, make_receipt, chain_link, validate_inputs, compute_receipt_hash,
  recompute_receipt_hash, sign_optional, witness_hash, build_receipt,
}
use forensa.Examples.Data.{toy_sha256, toy_ed25519}
use forensa.Anchors.{
  day_bounds, normalised_anchor_date, get_existing_row, get_anchor_for_day,
  get_latest_receipt_for_day, count_receipts_for_day, client_identifier, is_new_anchor, replace_row,
  row_for_day, anchor_day, anchor_runs, are_linked, last_hash, chain_walk,
  verify_receipt_anchored_in,
}
use forensa.Anchors.Table.{find_anchor}
use forensa.Anchors.Runs.{result_for}

abbrev pub day_receipts : Db
day_receipts = record empty_db {
  receipts =
      record { receipt = second; policy_snapshot_id = 41 }
      ∷ record { receipt = first; policy_snapshot_id = 41 }
      ∷ [];
}

abbrev answering : TimestampClient
answering = record {
  request_timestamp = λ root. some (record {
    tsa_identifier = "tsa";
    tsr_bytes = 1 ∷ [];
    timestamped_at = 600;
    hashed_root = root;
    signature = 2 ∷ [];
  });
  identifier = some "tsa";
  endpoint_url = none;
}

abbrev silent : TimestampClient
silent = record {
  request_timestamp = λ root. none;
  identifier = none;
  endpoint_url = some "http://tsa";
}

abbrev call_with : ℕ → TimestampClient → AnchorCall
call_with id client = record {
  tenant_id = 1;
  day = aware 500;
  client = client;
  tsa_identifier = none;
  id = id;
  now = 700;
}

abbrev written : Result (AnchorResult × List AnchorRow) → List AnchorRow
written (ok (_, rows)) = rows
written (err _) = []

abbrev outcome : Result (AnchorResult × List AnchorRow) → AnchorResult
outcome (ok (res, _)) = res
outcome (err _) = record {
  anchor_id = 0;
  status = deferred;
  root_hash = none;
  timestamped_at = none;
  receipts_covered = 0;
}

abbrev pub anchored_day : List AnchorRow
anchored_day = written (anchor_day (call_with 8 answering) day_receipts [])

abbrev success : AnchorResult
success = outcome (anchor_day (call_with 8 answering) day_receipts [])

anchors : anchor_day (call_with 8 answering) day_receipts [] ≡ ok (success, anchored_day)
unfolding uuid_str hex_text is_blank insert_member sort_keys digits_from digits escape_char escape
    quote write_int write_bool write utf8_char utf8 dumps b64encode normalise canonical_json
    sha256_hex load_private_key load_public_key sign verify is_sha256_hex make_verdict make_snapshot
    classify evaluate make_bundle compute_content_hash build_bundle verify_content_hash
    require_content_hash capture_snapshot resolve_snapshot snapshot_matches_bundle
    resolve_replay_policy bind_fields make_receipt chain_link validate_inputs compute_receipt_hash
    recompute_receipt_hash sign_optional witness_hash build_receipt toy_sha256 toy_ed25519
    day_bounds normalised_anchor_date get_existing_row get_anchor_for_day get_latest_receipt_for_day
    count_receipts_for_day client_identifier is_new_anchor replace_row row_for_day anchor_day
    anchor_runs are_linked last_hash chain_walk verify_receipt_anchored_in find_anchor result_for
anchors = refl

succeeded : success.status ≡ anchored
unfolding uuid_str hex_text is_blank insert_member sort_keys digits_from digits escape_char escape
    quote write_int write_bool write utf8_char utf8 dumps b64encode normalise canonical_json
    sha256_hex load_private_key load_public_key sign verify is_sha256_hex make_verdict make_snapshot
    classify evaluate make_bundle compute_content_hash build_bundle verify_content_hash
    require_content_hash capture_snapshot resolve_snapshot snapshot_matches_bundle
    resolve_replay_policy bind_fields make_receipt chain_link validate_inputs compute_receipt_hash
    recompute_receipt_hash sign_optional witness_hash build_receipt toy_sha256 toy_ed25519
    day_bounds normalised_anchor_date get_existing_row get_anchor_for_day get_latest_receipt_for_day
    count_receipts_for_day client_identifier is_new_anchor replace_row row_for_day anchor_day
    anchor_runs are_linked last_hash chain_walk verify_receipt_anchored_in find_anchor result_for
succeeded = refl

-- A silent authority first, then an answer, then one more, which is refused.
abbrev runs : List (AnchorCall × Db)
runs =
    (call_with 7 silent, day_receipts)
    ∷ (call_with 8 answering, day_receipts)
    ∷ (call_with 9 answering, day_receipts)
    ∷ []

runs_test : anchor_runs runs [] ≡ anchored_day
unfolding uuid_str hex_text is_blank insert_member sort_keys digits_from digits escape_char escape
    quote write_int write_bool write utf8_char utf8 dumps b64encode normalise canonical_json
    sha256_hex load_private_key load_public_key sign verify is_sha256_hex make_verdict make_snapshot
    classify evaluate make_bundle compute_content_hash build_bundle verify_content_hash
    require_content_hash capture_snapshot resolve_snapshot snapshot_matches_bundle
    resolve_replay_policy bind_fields make_receipt chain_link validate_inputs compute_receipt_hash
    recompute_receipt_hash sign_optional witness_hash build_receipt toy_sha256 toy_ed25519
    day_bounds normalised_anchor_date get_existing_row get_anchor_for_day get_latest_receipt_for_day
    count_receipts_for_day client_identifier is_new_anchor replace_row row_for_day anchor_day
    anchor_runs are_linked last_hash chain_walk verify_receipt_anchored_in find_anchor result_for
runs_test = refl

linked : Linked toy_sha256 1 (Repositories.of_tenant 1 day_receipts.receipts)
unfolding uuid_str hex_text is_blank insert_member sort_keys digits_from digits escape_char escape
    quote write_int write_bool write utf8_char utf8 dumps b64encode normalise canonical_json
    sha256_hex load_private_key load_public_key sign verify is_sha256_hex make_verdict make_snapshot
    classify evaluate make_bundle compute_content_hash build_bundle verify_content_hash
    require_content_hash capture_snapshot resolve_snapshot snapshot_matches_bundle
    resolve_replay_policy bind_fields make_receipt chain_link validate_inputs compute_receipt_hash
    recompute_receipt_hash sign_optional witness_hash build_receipt toy_sha256 toy_ed25519
    day_bounds normalised_anchor_date get_existing_row get_anchor_for_day get_latest_receipt_for_day
    count_receipts_for_day client_identifier is_new_anchor replace_row row_for_day anchor_day
    anchor_runs are_linked last_hash chain_walk verify_receipt_anchored_in find_anchor result_for
linked = (refl, refl, (refl, refl, refl), refl, (refl, refl, (refl, refl), refl, tt))

anchor_runs-IsSound_example : IsSound (anchor_runs runs [])
anchor_runs-IsSound_example = anchor_runs-IsSound runs [] tt

pub sound : IsSound anchored_day
unfolding uuid_str hex_text is_blank insert_member sort_keys digits_from digits escape_char escape
    quote write_int write_bool write utf8_char utf8 dumps b64encode normalise canonical_json
    sha256_hex load_private_key load_public_key sign verify is_sha256_hex make_verdict make_snapshot
    classify evaluate make_bundle compute_content_hash build_bundle verify_content_hash
    require_content_hash capture_snapshot resolve_snapshot snapshot_matches_bundle
    resolve_replay_policy bind_fields make_receipt chain_link validate_inputs compute_receipt_hash
    recompute_receipt_hash sign_optional witness_hash build_receipt toy_sha256 toy_ed25519
    day_bounds normalised_anchor_date get_existing_row get_anchor_for_day get_latest_receipt_for_day
    count_receipts_for_day client_identifier is_new_anchor replace_row row_for_day anchor_day
    anchor_runs are_linked last_hash chain_walk verify_receipt_anchored_in find_anchor result_for
sound = ((refl, refl, refl, refl), refl, refl, tt)

abbrev the_row : AnchorRow
the_row = new_row (call_with 8 answering) 500 day_receipts

held : find_anchor 1 0 anchored_day ≡ some the_row
unfolding uuid_str hex_text is_blank insert_member sort_keys digits_from digits escape_char escape
    quote write_int write_bool write utf8_char utf8 dumps b64encode normalise canonical_json
    sha256_hex load_private_key load_public_key sign verify is_sha256_hex make_verdict make_snapshot
    classify evaluate make_bundle compute_content_hash build_bundle verify_content_hash
    require_content_hash capture_snapshot resolve_snapshot snapshot_matches_bundle
    resolve_replay_policy bind_fields make_receipt chain_link validate_inputs compute_receipt_hash
    recompute_receipt_hash sign_optional witness_hash build_receipt toy_sha256 toy_ed25519
    day_bounds normalised_anchor_date get_existing_row get_anchor_for_day get_latest_receipt_for_day
    count_receipts_for_day client_identifier is_new_anchor replace_row row_for_day anchor_day
    anchor_runs are_linked last_hash chain_walk verify_receipt_anchored_in find_anchor result_for
held = refl

is_done : the_row.status ≡ anchored
unfolding uuid_str hex_text is_blank insert_member sort_keys digits_from digits escape_char escape
    quote write_int write_bool write utf8_char utf8 dumps b64encode normalise canonical_json
    sha256_hex load_private_key load_public_key sign verify is_sha256_hex make_verdict make_snapshot
    classify evaluate make_bundle compute_content_hash build_bundle verify_content_hash
    require_content_hash capture_snapshot resolve_snapshot snapshot_matches_bundle
    resolve_replay_policy bind_fields make_receipt chain_link validate_inputs compute_receipt_hash
    recompute_receipt_hash sign_optional witness_hash build_receipt toy_sha256 toy_ed25519
    day_bounds normalised_anchor_date get_existing_row get_anchor_for_day get_latest_receipt_for_day
    count_receipts_for_day client_identifier is_new_anchor replace_row row_for_day anchor_day
    anchor_runs are_linked last_hash chain_walk verify_receipt_anchored_in find_anchor result_for
is_done = refl

anchor_runs-keep_example : find_anchor 1 0 (anchor_runs runs anchored_day) ≡ some the_row
anchor_runs-keep_example = anchor_runs-keep runs anchored_day 1 0 the_row sound held is_done

abbrev at_day : ℕ
at_day = 90_000_000_123

day_bounds-IsDay_example :
    (start : ℕ) × (end : ℕ) × (day_bounds (aware at_day) ≡ ok (start, end))
    × (start % Anchors.day_length ≡ 0)
    × (start ≤ at_day)
    × (at_day ≤ end)
    × ((u : ℕ) → (start ≤ u) × (u ≤ end) ↔ (u / Anchors.day_length ≡ at_day / Anchors.day_length))
day_bounds-IsDay_example = day_bounds-IsDay at_day

anchor_day-verifies_example :
    (row : AnchorRow) × (get_anchor_for_day 1 (aware 500) anchored_day ≡ ok (some row))
    × ((r : ReceiptRow) (at : ℕ)
        → IsRow r (Anchors.receipts_of_day 1 (bounds_of 500) day_receipts)
        → row.timestamped_at ≡ some at
        → r.receipt.signed_at ≤ at
        → (between : List Receipt) × AreReceipts between
            (Repositories.of_tenant 1 day_receipts.receipts)
          × (verify_receipt_anchored_in r.receipt row between ≡ true))
anchor_day-verifies_example =
    anchor_day-verifies toy_sha256 (call_with 8 answering) 500 day_receipts [] anchored_day success
      tt linked refl anchors succeeded
