-- ===== src/Examples/Exports.antt =====
-- packages/export/ma_export.py and packages/jobs/ma_export_runner.py at concrete inputs: a bundle of one
-- day, built, signed and run as a job.
use forensa.Prelude.{
  ℕ, ◌+◌, ◌<◌, ◌≤◌, ◌≡◌, ◌⊎◌, refl, true, none, some, List, [], ◌∷◌, Result, ok, err,
  ma_export_error,
}
use forensa.Packs.{EvidencePack}
use forensa.Diligence
use forensa.Diligence.{MaDiligenceExport}
use forensa.Diligence.Sealed.{sign_ma_diligence_export-verifies}
use forensa.Diligence.Tamper.{SameSeal, verify_ma_diligence_export-binds}
use forensa.Hash.Injective.{Collision}
use forensa.Diligence.Chunks.{Tiles, daily_chunks-Tiles}
use forensa.Jobs
use forensa.Runner
use forensa.Runner.{World, Services, Draws}
use forensa.Runner.Bundle.{IsBundle, build_export-IsBundle}
use forensa.Runner.Ends.{HasEnded, run_ma_export_job-ends}
use forensa.Examples.Data.{toy_ed25519-Laws, private_key, payload}
use forensa.Examples.Jobs.{request}
use forensa.Examples.Anchors.{anchored_day, day_receipts, sound}
use forensa.Examples.Packs.{toy_iso}
use forensa.Prelude.{uuid_str, hex_text, is_blank, nat_text}
use forensa.Json.{
  insert_member, sort_keys, digits_from, digits, escape_char, escape, quote, write_int, write_bool,
  write, utf8_char, utf8, dumps,
}
use forensa.Hash.{b64encode, normalise, canonical_json, sha256_hex}
use forensa.Sign.{load_private_key, load_public_key, sign, verify}
use forensa.Policy.{
  is_sha256_hex, make_verdict, make_snapshot, classify, evaluate, make_bundle, compute_content_hash,
  build_bundle, verify_content_hash, require_content_hash, capture_snapshot, resolve_snapshot,
  snapshot_matches_bundle, resolve_replay_policy,
}
use forensa.Receipts.{
  bind_fields, make_receipt, chain_link, validate_inputs, compute_receipt_hash,
  recompute_receipt_hash, sign_optional, witness_hash, build_receipt,
}
use forensa.Examples.Data.{toy_sha256, toy_ed25519}
use forensa.Packs.{
  from_anchor_row, is_ascending, make_pack, make_item, make_items, activities_of, all_of_tenant,
  listed, dump_header, canonicalise_item, dump_activity, canonicalise_anchor, bind, seal_pack,
  build_evidence_pack, verify_evidence_pack,
}
use forensa.Diligence.{
  sort_texts, total_receipts, all_packs_of, make_export, seal_export, build_ma_diligence_export,
  verify_ma_diligence_export, chunks_from, daily_chunks, text_length, sign_ma_diligence_export,
  verify_ma_diligence_export_signature,
}
use forensa.Runner.{
  anchors_in_scope, pack_for, packs_for, build_export, sign_if_asked, serialise_result, work_on,
  work_stage, fail_stage, after_lock, cannot_start, run_ma_export_job,
}
use forensa.Jobs.{
  find_job, get_ma_export_job_by_id, update_job, load_job, text_take,
  mark_ma_export_job_pending_to_running, mark_ma_export_job_running_to_completed,
  mark_ma_export_job_failed,
}
use forensa.Repositories.{list_receipts_with_snapshot_for_tenant}
use forensa.Anchors.{
  day_bounds, normalised_anchor_date, get_existing_row, get_latest_receipt_for_day,
  count_receipts_for_day, client_identifier, is_new_anchor, replace_row, row_for_day, anchor_day,
}

abbrev services : Services
services = record {
  iso = toy_iso;
  sha256 = toy_sha256;
  ed25519 = toy_ed25519;
  to_json = λ x. payload;
  model_dump_json = λ x. [];
  urlsafe_b64decode = λ s. some [];
  encrypt_for_recipient = λ t k. none;
  describe = λ x. "failed";
}

abbrev draws : Draws
draws = record {
  now = 900;
  export_id = 90;
  pack_ids = λ n. 100 + n;
  activity_ids = λ n m. m;
  started_at = 901;
  completed_at = 902;
  failed_at = 903;
}

abbrev world : World
world = record { db = day_receipts; anchors = anchored_day; jobs = Jobs.new_job 7 request ∷ [] }

abbrev export_or : Result MaDiligenceExport → MaDiligenceExport
export_or (ok x) = x
export_or (err _) = record {
  header = Diligence.header_of (Runner.export_inputs draws 1 0 0 ([], []));
  evidence_packs = [];
  anchor_proofs = [];
  ma_root_hash = "";
  platform_signature = none;
  platform_key_id = none;
}

abbrev bundle : MaDiligenceExport
bundle = export_or (build_export services draws 1 0 1000 world)

built : build_export services draws 1 0 1000 world ≡ ok bundle
unfolding uuid_str hex_text is_blank nat_text insert_member sort_keys digits_from digits escape_char
    escape quote write_int write_bool write utf8_char utf8 dumps b64encode normalise canonical_json
    sha256_hex load_private_key load_public_key sign verify is_sha256_hex make_verdict make_snapshot
    classify evaluate make_bundle compute_content_hash build_bundle verify_content_hash
    require_content_hash capture_snapshot resolve_snapshot snapshot_matches_bundle
    resolve_replay_policy bind_fields make_receipt chain_link validate_inputs compute_receipt_hash
    recompute_receipt_hash sign_optional witness_hash build_receipt toy_sha256 toy_ed25519
    from_anchor_row is_ascending make_pack make_item make_items activities_of all_of_tenant listed
    dump_header canonicalise_item dump_activity canonicalise_anchor bind seal_pack
    build_evidence_pack verify_evidence_pack sort_texts total_receipts all_packs_of make_export
    seal_export build_ma_diligence_export verify_ma_diligence_export chunks_from daily_chunks
    text_length sign_ma_diligence_export verify_ma_diligence_export_signature anchors_in_scope
    pack_for packs_for build_export sign_if_asked serialise_result work_on work_stage fail_stage
    after_lock cannot_start run_ma_export_job find_job get_ma_export_job_by_id update_job load_job
    text_take mark_ma_export_job_pending_to_running mark_ma_export_job_running_to_completed
    mark_ma_export_job_failed list_receipts_with_snapshot_for_tenant day_bounds
    normalised_anchor_date get_existing_row get_latest_receipt_for_day count_receipts_for_day
    client_identifier is_new_anchor replace_row row_for_day anchor_day Diligence.bind
    Diligence.dump_header
built = refl

build_export-IsBundle_example : IsBundle services 1 0 1000 world bundle
build_export-IsBundle_example =
    build_export-IsBundle services draws 1 0 1000 world bundle sound built

abbrev signed_bundle : MaDiligenceExport
signed_bundle = export_or (sign_ma_diligence_export toy_ed25519 bundle private_key "key-1")

signs : sign_ma_diligence_export toy_ed25519 bundle private_key "key-1" ≡ ok signed_bundle
unfolding uuid_str hex_text is_blank nat_text insert_member sort_keys digits_from digits escape_char
    escape quote write_int write_bool write utf8_char utf8 dumps b64encode normalise canonical_json
    sha256_hex load_private_key load_public_key sign verify is_sha256_hex make_verdict make_snapshot
    classify evaluate make_bundle compute_content_hash build_bundle verify_content_hash
    require_content_hash capture_snapshot resolve_snapshot snapshot_matches_bundle
    resolve_replay_policy bind_fields make_receipt chain_link validate_inputs compute_receipt_hash
    recompute_receipt_hash sign_optional witness_hash build_receipt toy_sha256 toy_ed25519
    from_anchor_row is_ascending make_pack make_item make_items activities_of all_of_tenant listed
    dump_header canonicalise_item dump_activity canonicalise_anchor bind seal_pack
    build_evidence_pack verify_evidence_pack sort_texts total_receipts all_packs_of make_export
    seal_export build_ma_diligence_export verify_ma_diligence_export chunks_from daily_chunks
    text_length sign_ma_diligence_export verify_ma_diligence_export_signature anchors_in_scope
    pack_for packs_for build_export sign_if_asked serialise_result work_on work_stage fail_stage
    after_lock cannot_start run_ma_export_job find_job get_ma_export_job_by_id update_job load_job
    text_take mark_ma_export_job_pending_to_running mark_ma_export_job_running_to_completed
    mark_ma_export_job_failed list_receipts_with_snapshot_for_tenant day_bounds
    normalised_anchor_date get_existing_row get_latest_receipt_for_day count_receipts_for_day
    client_identifier is_new_anchor replace_row row_for_day anchor_day Diligence.bind
    Diligence.dump_header
signs = refl

sign_ma_diligence_export-verifies_example :
    (verify_ma_diligence_export_signature toy_ed25519 signed_bundle
        (toy_ed25519.public_key private_key)
      ≡ ok true)
    × (signed_bundle.platform_key_id ≡ some "key-1")
    × (record signed_bundle {
      platform_signature = bundle.platform_signature;
      platform_key_id = bundle.platform_key_id;
    }
        ≡ bundle)
sign_ma_diligence_export-verifies_example =
    sign_ma_diligence_export-verifies toy_ed25519 toy_ed25519-Laws bundle signed_bundle private_key
      "key-1" signs

abbrev emptied : List EvidencePack → List EvidencePack
emptied [] = []
emptied (p ∷ ps) = record p { receipts = []; activities = [] } ∷ emptied ps

-- The bundle with the receipts and activities of its packs taken out.
abbrev tampered : MaDiligenceExport
tampered = record bundle { evidence_packs = emptied bundle.evidence_packs }

bundle_verifies : verify_ma_diligence_export toy_iso toy_sha256 bundle ≡ ok true
unfolding uuid_str hex_text is_blank nat_text insert_member sort_keys digits_from digits escape_char
    escape quote write_int write_bool write utf8_char utf8 dumps b64encode normalise canonical_json
    sha256_hex load_private_key load_public_key sign verify is_sha256_hex make_verdict make_snapshot
    classify evaluate make_bundle compute_content_hash build_bundle verify_content_hash
    require_content_hash capture_snapshot resolve_snapshot snapshot_matches_bundle
    resolve_replay_policy bind_fields make_receipt chain_link validate_inputs compute_receipt_hash
    recompute_receipt_hash sign_optional witness_hash build_receipt toy_sha256 toy_ed25519
    from_anchor_row is_ascending make_pack make_item make_items activities_of all_of_tenant listed
    dump_header canonicalise_item dump_activity canonicalise_anchor bind seal_pack
    build_evidence_pack verify_evidence_pack sort_texts total_receipts all_packs_of make_export
    seal_export build_ma_diligence_export verify_ma_diligence_export chunks_from daily_chunks
    text_length sign_ma_diligence_export verify_ma_diligence_export_signature anchors_in_scope
    pack_for packs_for build_export sign_if_asked serialise_result work_on work_stage fail_stage
    after_lock cannot_start run_ma_export_job find_job get_ma_export_job_by_id update_job load_job
    text_take mark_ma_export_job_pending_to_running mark_ma_export_job_running_to_completed
    mark_ma_export_job_failed list_receipts_with_snapshot_for_tenant day_bounds
    normalised_anchor_date get_existing_row get_latest_receipt_for_day count_receipts_for_day
    client_identifier is_new_anchor replace_row row_for_day anchor_day Diligence.bind
    Diligence.dump_header
bundle_verifies = refl

tampered_verifies : verify_ma_diligence_export toy_iso toy_sha256 tampered ≡ ok true
unfolding uuid_str hex_text is_blank nat_text insert_member sort_keys digits_from digits escape_char
    escape quote write_int write_bool write utf8_char utf8 dumps b64encode normalise canonical_json
    sha256_hex load_private_key load_public_key sign verify is_sha256_hex make_verdict make_snapshot
    classify evaluate make_bundle compute_content_hash build_bundle verify_content_hash
    require_content_hash capture_snapshot resolve_snapshot snapshot_matches_bundle
    resolve_replay_policy bind_fields make_receipt chain_link validate_inputs compute_receipt_hash
    recompute_receipt_hash sign_optional witness_hash build_receipt toy_sha256 toy_ed25519
    from_anchor_row is_ascending make_pack make_item make_items activities_of all_of_tenant listed
    dump_header canonicalise_item dump_activity canonicalise_anchor bind seal_pack
    build_evidence_pack verify_evidence_pack sort_texts total_receipts all_packs_of make_export
    seal_export build_ma_diligence_export verify_ma_diligence_export chunks_from daily_chunks
    text_length sign_ma_diligence_export verify_ma_diligence_export_signature anchors_in_scope
    pack_for packs_for build_export sign_if_asked serialise_result work_on work_stage fail_stage
    after_lock cannot_start run_ma_export_job find_job get_ma_export_job_by_id update_job load_job
    text_take mark_ma_export_job_pending_to_running mark_ma_export_job_running_to_completed
    mark_ma_export_job_failed list_receipts_with_snapshot_for_tenant day_bounds
    normalised_anchor_date get_existing_row get_latest_receipt_for_day count_receipts_for_day
    client_identifier is_new_anchor replace_row row_for_day anchor_day Diligence.bind
    Diligence.dump_header
tampered_verifies = refl

verify_ma_diligence_export-binds_example : SameSeal toy_iso bundle tampered ⊎ Collision toy_sha256
verify_ma_diligence_export-binds_example =
    verify_ma_diligence_export-binds toy_iso toy_sha256 bundle tampered bundle_verifies
      tampered_verifies refl

daily_chunks-Tiles_example :
    ((5 ≤ 100_000_000_000)
      × ((chunks : List (ℕ × ℕ)) × (daily_chunks 5 100_000_000_000 ≡ ok chunks)
          × Tiles 5 100_000_000_000 chunks))
    ⊎ ((100_000_000_000 < 5) × (daily_chunks 5 100_000_000_000 ≡ err ma_export_error))
daily_chunks-Tiles_example = daily_chunks-Tiles 5 100_000_000_000

held : find_job 7 world.jobs ≡ some (Jobs.new_job 7 request)
unfolding uuid_str hex_text is_blank nat_text insert_member sort_keys digits_from digits escape_char
    escape quote write_int write_bool write utf8_char utf8 dumps b64encode normalise canonical_json
    sha256_hex load_private_key load_public_key sign verify is_sha256_hex make_verdict make_snapshot
    classify evaluate make_bundle compute_content_hash build_bundle verify_content_hash
    require_content_hash capture_snapshot resolve_snapshot snapshot_matches_bundle
    resolve_replay_policy bind_fields make_receipt chain_link validate_inputs compute_receipt_hash
    recompute_receipt_hash sign_optional witness_hash build_receipt toy_sha256 toy_ed25519
    from_anchor_row is_ascending make_pack make_item make_items activities_of all_of_tenant listed
    dump_header canonicalise_item dump_activity canonicalise_anchor bind seal_pack
    build_evidence_pack verify_evidence_pack sort_texts total_receipts all_packs_of make_export
    seal_export build_ma_diligence_export verify_ma_diligence_export chunks_from daily_chunks
    text_length sign_ma_diligence_export verify_ma_diligence_export_signature anchors_in_scope
    pack_for packs_for build_export sign_if_asked serialise_result work_on work_stage fail_stage
    after_lock cannot_start run_ma_export_job find_job get_ma_export_job_by_id update_job load_job
    text_take mark_ma_export_job_pending_to_running mark_ma_export_job_running_to_completed
    mark_ma_export_job_failed list_receipts_with_snapshot_for_tenant day_bounds
    normalised_anchor_date get_existing_row get_latest_receipt_for_day count_receipts_for_day
    client_identifier is_new_anchor replace_row row_for_day anchor_day Diligence.bind
    Diligence.dump_header
held = refl

run_ma_export_job-ends_example :
    (w' : World) × (run_ma_export_job services draws (λ w. w) (λ w. w) 7 none world ≡ (ok tt, w'))
    × HasEnded services 7 w'
run_ma_export_job-ends_example =
    run_ma_export_job-ends services draws 7 none (λ w. w) (λ w. w) world (Jobs.new_job 7 request)
      (λ v. refl) (λ v. refl) held refl
