-- ===== src/Examples/Requests.antt =====
-- packages/ledger/bundle_workflow.py at concrete inputs: sequences of requests, and an activation.
use forensa.Prelude.{◌≡◌, refl, false, ◌&&◌, some, List, [], ◌∷◌, map, string_eq}
use forensa.Ledger.{approved, Db}
use forensa.Ledger.{empty_db, BundleRow, BundleStatus, active, author, reviewer, approver}
use forensa.Workflow.Steps.{Steps}
use forensa.Workflow.Requests.{Request, Served, serve-Steps}
use forensa.Workflow.Roles.{acted}
use forensa.Workflow.Segregation.{serve_segregates}
use forensa.Examples.Data.{bundle}
use forensa.Prelude.{uuid_str, hex_text, is_blank}
use forensa.Json.{
  insert_member, sort_keys, digits_from, digits, escape_char, escape, quote, write_int, write_bool,
  write, utf8_char, utf8, dumps,
}
use forensa.Hash.{b64encode, normalise, canonical_json, sha256_hex}
use forensa.Policy.{
  is_sha256_hex, make_verdict, make_snapshot, classify, evaluate, make_bundle, compute_content_hash,
  build_bundle, verify_content_hash, require_content_hash, capture_snapshot, resolve_snapshot,
  snapshot_matches_bundle, resolve_replay_policy,
}
use forensa.Workflow.{
  valid_transition, required_role, find_bundle, set_status, active_bundles, no_other_active,
  load_bundle, write_approval, filled, enforce_segregation, flush_status, transition, propose,
  review, approve, supersede_reason, supersede_prior, replace_active, activate, supersede,
}
use forensa.Bundles.{is_new_bundle, flush_bundle, write_bundle, get_active_bundle_for_tenant}
use forensa.Workflow.Requests.{call, serve}
use forensa.Examples.Data.{toy_sha256, toy_ed25519}

-- A proposal, a review that its author is refused, a review, an approval and an activation.
abbrev requests : List Request
requests =
    Request.write bundle
    ∷ Request.propose 31 11 5 (some 21) "a proposal"
    ∷ Request.review 32 12 5 21 "by its author"
    ∷ Request.review 32 12 5 22 "a review"
    ∷ Request.approve 33 13 5 23 "an approval"
    ∷ Request.activate 34 14 35 14 5 24 "an activation"
    ∷ []

statuses : List Request → List BundleStatus
statuses rs = map (λ (b : BundleRow). b.status) (serve empty_db rs).bundles

statuses_test : statuses requests ≡ active ∷ []
unfolding uuid_str hex_text is_blank insert_member sort_keys digits_from digits escape_char escape
    quote write_int write_bool write utf8_char utf8 dumps b64encode normalise canonical_json
    sha256_hex is_sha256_hex make_verdict make_snapshot classify evaluate make_bundle
    compute_content_hash build_bundle verify_content_hash require_content_hash capture_snapshot
    resolve_snapshot snapshot_matches_bundle resolve_replay_policy toy_sha256 toy_ed25519
    valid_transition required_role find_bundle set_status active_bundles no_other_active load_bundle
    write_approval filled enforce_segregation flush_status transition propose review approve
    supersede_reason supersede_prior replace_active activate supersede is_new_bundle flush_bundle
    write_bundle get_active_bundle_for_tenant call serve statuses
statuses_test = refl

abbrev approved_bundle : BundleRow
approved_bundle = record { bundle = bundle; status = approved }

-- A bundle of the tenant that is active already.
abbrev prior_bundle : BundleRow
prior_bundle = record { bundle = record bundle { id = 4; version = "0.9" }; status = active }

abbrev two_bundles : Db
two_bundles = record empty_db { bundles = approved_bundle ∷ prior_bundle ∷ [] }

serve-Steps_example : Steps empty_db (serve empty_db requests) × Served empty_db requests
serve-Steps_example = serve-Steps empty_db requests tt

serve_segregates_example :
    ((acted author 5 21 (serve empty_db requests) && acted reviewer 5 21 (serve empty_db requests))
      ≡ false)
    × ((acted author 5 21 (serve empty_db requests)
          && acted approver 5 21 (serve empty_db requests))
        ≡ false)
    × ((acted reviewer 5 21 (serve empty_db requests)
          && acted approver 5 21 (serve empty_db requests))
        ≡ false)
serve_segregates_example = serve_segregates requests 5 21
