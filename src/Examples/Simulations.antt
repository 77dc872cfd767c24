-- ===== src/Examples/Simulations.antt =====
-- packages/policy/tabletop.py at concrete inputs: a simulation and a report of two.
use forensa.Prelude.{
  All, ℕ, ◌+◌, String, ◌≡◌, refl, false, none, some, List, [], ◌∷◌, map, length, Result, ok, err,
  if◌then◌else◌,
}
use forensa.Hash.{Value, dict, entry, no_entries, text}
use forensa.Policy
use forensa.Tabletop
use forensa.Tabletop.Simulate.{Counted, simulate_scenario-counts}
use forensa.Tabletop.Entries.{IsKind}
use forensa.Tabletop.Diff.{diff_tabletop_results-counts}
use forensa.Examples.Data.{bundle, client}
use forensa.Json.{
  insert_member, sort_keys, digits_from, digits, escape_char, escape, quote, write_int, write_bool,
  write, utf8_char, utf8, dumps,
}
use forensa.Hash.{b64encode, normalise, canonical_json, sha256_hex}
use forensa.Policy.{
  is_sha256_hex, make_verdict, make_snapshot, classify, evaluate, make_bundle, compute_content_hash,
  build_bundle, verify_content_hash, require_content_hash, capture_snapshot, resolve_snapshot,
  snapshot_matches_bundle, resolve_replay_policy,
}
use forensa.Tabletop.{run_actions, simulate_scenario}
use forensa.Tabletop.Report
use forensa.Tabletop.Report.{
  find_row, distinct, index_by_label, insert_label, sort_labels, all_labels, kind_of, diff_labels,
  diff_tabletop_results,
}
use forensa.Examples.Data.{toy_sha256, toy_ed25519}

abbrev action : String → Value
action kind = dict (entry "kind" (text kind) no_entries)

abbrev scenario : Tabletop.Scenario
scenario = record {
  name = "three actions";
  tenant_id = 1;
  policy_bundle_id = 5;
  actions =
      record { label = "b"; action = action "deny_kind" }
      ∷ record { label = "a"; action = action "tool_call" }
      ∷ record { label = "c"; action = text "not a dict" }
      ∷ [];
}

abbrev evaluated : Result Policy.PolicyVerdict → Tabletop.Evaluation
evaluated (ok v) = Tabletop.verdict v
evaluated (err x) = Tabletop.enforcement_error "no verdict"

abbrev gateway : ℕ → Value → Tabletop.Evaluation
gateway tenant a = evaluated (evaluate client 9 a)

abbrev result : Result Tabletop.TabletopResult
result = simulate_scenario scenario bundle gateway

abbrev result_or : Result Tabletop.TabletopResult → Tabletop.TabletopResult
result_or (ok r) = r
result_or (err _) = record {
  scenario = scenario;
  bundle_id = 0;
  bundle_version = "";
  bundle_content_hash = "";
  action_results = [];
  summary = record {
    total = 0;
    counts = record { allow = 0; deny = 0; escalate = 0; errored = 0 };
  };
}

abbrev simulated : Tabletop.TabletopResult
simulated = result_or result

returned : result ≡ ok simulated
unfolding insert_member sort_keys digits_from digits escape_char escape quote write_int write_bool
    write utf8_char utf8 dumps b64encode normalise canonical_json sha256_hex is_sha256_hex
    make_verdict make_snapshot classify evaluate make_bundle compute_content_hash build_bundle
    verify_content_hash require_content_hash capture_snapshot resolve_snapshot
    snapshot_matches_bundle resolve_replay_policy run_actions simulate_scenario find_row distinct
    index_by_label insert_label sort_labels all_labels kind_of diff_labels diff_tabletop_results
    toy_sha256 toy_ed25519
returned = refl

simulate_scenario-counts_example :
    (Tabletop.labels simulated.action_results
      ≡ map (λ (s : Tabletop.ActionSpec). s.label) scenario.actions)
    × Counted simulated.action_results simulated.summary.counts
    × (simulated.summary.counts.allow + simulated.summary.counts.deny
          + simulated.summary.counts.escalate + simulated.summary.counts.errored
        ≡ simulated.summary.total)
simulate_scenario-counts_example =
    simulate_scenario-counts scenario bundle gateway simulated returned

-- The live bundle allowed "b", never saw "c", and saw a "d".
abbrev actual : List Tabletop.ActionResult
actual =
    record { label = "d"; decision = some Policy.deny; reason = none; errored = false }
    ∷ record { label = "a"; decision = some Policy.allow; reason = none; errored = false }
    ∷ record { label = "b"; decision = some Policy.allow; reason = none; errored = false }
    ∷ []

abbrev report_or : Result Report.DiffReport → Report.DiffReport
report_or (ok r) = r
report_or (err _) = record {
  entries = [];
  total_simulated = 0;
  total_actual = 0;
  counts = Report.no_kinds;
}

abbrev diff : Report.DiffReport
diff = report_or (diff_tabletop_results simulated.action_results actual false)

reported : diff_tabletop_results simulated.action_results actual false ≡ ok diff
unfolding insert_member sort_keys digits_from digits escape_char escape quote write_int write_bool
    write utf8_char utf8 dumps b64encode normalise canonical_json sha256_hex is_sha256_hex
    make_verdict make_snapshot classify evaluate make_bundle compute_content_hash build_bundle
    verify_content_hash require_content_hash capture_snapshot resolve_snapshot
    snapshot_matches_bundle resolve_replay_policy run_actions simulate_scenario find_row distinct
    index_by_label insert_label sort_labels all_labels kind_of diff_labels diff_tabletop_results
    toy_sha256 toy_ed25519
reported = refl

diff_labels_test : map (λ (e : Report.DiffEntry). e.label) diff.entries ≡ "b" ∷ "c" ∷ "d" ∷ []
unfolding insert_member sort_keys digits_from digits escape_char escape quote write_int write_bool
    write utf8_char utf8 dumps b64encode normalise canonical_json sha256_hex is_sha256_hex
    make_verdict make_snapshot classify evaluate make_bundle compute_content_hash build_bundle
    verify_content_hash require_content_hash capture_snapshot resolve_snapshot
    snapshot_matches_bundle resolve_replay_policy run_actions simulate_scenario find_row distinct
    index_by_label insert_label sort_labels all_labels kind_of diff_labels diff_tabletop_results
    toy_sha256 toy_ed25519
diff_labels_test = refl

diff_tabletop_results-counts_example :
    All
      (λ (d : Report.DiffEntry). IsKind d.kind d.label simulated.action_results actual)
      diff.entries
    × (diff.total_simulated
        ≡ diff.counts.matched + diff.counts.drift + diff.counts.errored_either
          + diff.counts.simulated_only)
    × (length diff.entries + (if false then 0 else diff.counts.matched)
        ≡ diff.counts.matched + diff.counts.drift + diff.counts.simulated_only
          + diff.counts.actual_only + diff.counts.errored_either)
diff_tabletop_results-counts_example =
    diff_tabletop_results-counts simulated.action_results actual false diff reported
