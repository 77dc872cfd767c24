-- ===== src/Examples/Bundles.antt =====
-- packages/policy at concrete inputs: bundles, snapshots and replays.
use forensa.Prelude.{◌≡◌, ◌↔◌, refl, true, false, some, ok}
use forensa.Ledger.{PolicyBundle, PolicySnapshot}
use forensa.Policy
use forensa.Policy.Bind.{
  capture_snapshot-binds, build_bundle-verify_content_hash, resolve_replay_policy-eq,
}
use forensa.Examples.Data.{bundle, schema}
use forensa.Json.{
  insert_member, sort_keys, digits_from, digits, escape_char, escape, quote, write_int, write_bool,
  write, utf8_char, utf8, dumps,
}
use forensa.Hash.{b64encode, normalise, canonical_json, sha256_hex}
use forensa.Policy.{
  is_sha256_hex, make_verdict, make_snapshot, classify, evaluate, make_bundle, compute_content_hash,
  build_bundle, verify_content_hash, require_content_hash, capture_snapshot, resolve_snapshot,
  snapshot_matches_bundle, resolve_replay_policy,
}
use forensa.Examples.Data.{toy_sha256, toy_ed25519}

built : build_bundle toy_sha256 schema 5 10 1 "1.0.0" Policy.default_content ≡ ok bundle
unfolding insert_member sort_keys digits_from digits escape_char escape quote write_int write_bool
    write utf8_char utf8 dumps b64encode normalise canonical_json sha256_hex is_sha256_hex
    make_verdict make_snapshot classify evaluate make_bundle compute_content_hash build_bundle
    verify_content_hash require_content_hash capture_snapshot resolve_snapshot
    snapshot_matches_bundle resolve_replay_policy toy_sha256 toy_ed25519
built = refl

build_bundle-verify_content_hash_test :
    (verify_content_hash toy_sha256 bundle ≡ ok true)
    × (require_content_hash toy_sha256 bundle ≡ ok tt)
build_bundle-verify_content_hash_test =
    build_bundle-verify_content_hash toy_sha256 schema 5 10 1 "1.0.0" Policy.default_content bundle
      (λ c. refl) built

abbrev verdict : Policy.PolicyVerdict
verdict = record {
  decision = Policy.deny;
  policy_bundle_id = 5;
  policy_bundle_version = "1.0.0";
  content_hash = bundle.content_hash;
  reason = "matched rule deny_kind";
  evaluated_at = 12;
}

abbrev snapshot : PolicySnapshot
snapshot = record {
  policy_bundle_id = 5;
  policy_bundle_version = "1.0.0";
  content_hash = bundle.content_hash;
  captured_at = 13;
  verdict_decision = "deny";
  verdict_reason = "matched rule deny_kind";
}

captured : capture_snapshot toy_sha256 13 bundle verdict ≡ ok snapshot
unfolding insert_member sort_keys digits_from digits escape_char escape quote write_int write_bool
    write utf8_char utf8 dumps b64encode normalise canonical_json sha256_hex is_sha256_hex
    make_verdict make_snapshot classify evaluate make_bundle compute_content_hash build_bundle
    verify_content_hash require_content_hash capture_snapshot resolve_snapshot
    snapshot_matches_bundle resolve_replay_policy toy_sha256 toy_ed25519
captured = refl

capture_snapshot-binds_example :
    (snapshot.policy_bundle_id ≡ bundle.id)
    × (snapshot.policy_bundle_id ≡ verdict.policy_bundle_id)
    × (snapshot.content_hash ≡ verdict.content_hash)
    × (sha256_hex toy_sha256 bundle.content ≡ ok snapshot.content_hash)
    × (snapshot_matches_bundle snapshot bundle ≡ true)
capture_snapshot-binds_example =
    capture_snapshot-binds toy_sha256 13 bundle verdict snapshot captured

-- The live bundle has another content by now.
abbrev live : PolicyBundle
live = record bundle { content_hash = "ff" }

abbrev replay : Policy.ReplayPolicy
replay = record {
  policy_bundle_id = 5;
  policy_bundle_version = "1.0.0";
  content_hash = bundle.content_hash;
  verdict_decision = "deny";
  verdict_reason = "matched rule deny_kind";
  drift_detected = true;
}

replayed : resolve_replay_policy 5 41 snapshot (some live) ≡ ok replay
unfolding insert_member sort_keys digits_from digits escape_char escape quote write_int write_bool
    write utf8_char utf8 dumps b64encode normalise canonical_json sha256_hex is_sha256_hex
    make_verdict make_snapshot classify evaluate make_bundle compute_content_hash build_bundle
    verify_content_hash require_content_hash capture_snapshot resolve_snapshot
    snapshot_matches_bundle resolve_replay_policy toy_sha256 toy_ed25519
replayed = refl

resolve_replay_policy-eq_example :
    (replay.content_hash ≡ snapshot.content_hash)
    × ((replay.drift_detected ≡ false) ↔ (resolve_snapshot snapshot live ≡ ok tt))
resolve_replay_policy-eq_example = resolve_replay_policy-eq snapshot 41 live replay replayed
