-- ===== src/Tabletop.antt =====
-- packages/policy/tabletop.py: simulation of a policy, and the report of two simulations.
-- The ranges that pydantic checks of a scenario's texts are not modelled.
pub mod Simulate
pub mod Report
pub mod Entries
pub mod Diff
use Prim.Native.String.{◌++◌, compare}
use Prim.Native.Nat.{lt, eq, gt}
use forensa.Prelude.{
  ℕ, ◌+◌, String, Bool, true, false, not, ◌&&◌, ◌||◌, Option, none, some, List, [], ◌∷◌, map,
  length, filter, ltb, suc, if◌then◌else◌, ◌==◌, ◌!=◌, nat_eq, string_eq, Result, ok, err, Error,
  ◌>>=◌, ◌>>◌, require, tabletop_error,
}
use mathlib.Core.List.{◌++◌ as ◌++ₗ◌}
use forensa.Hash.{Value}
use forensa.Ledger.{PolicyBundle}
use forensa.Policy.{PolicyDecision, allow, deny, escalate, PolicyVerdict}

pub record ActionSpec : Type 0 where
  pub label : String
  pub action : Value

pub record Scenario : Type 0 where
  pub name : String
  pub tenant_id : ℕ
  pub policy_bundle_id : ℕ
  pub actions : List ActionSpec

pub record ActionResult : Type 0 where
  pub label : String
  pub decision : Option PolicyDecision
  pub reason : Option String
  pub errored : Bool

-- `counts`
pub record Counts : Type 0 where
  pub allow : ℕ
  pub deny : ℕ
  pub escalate : ℕ
  pub errored : ℕ

pub record Summary : Type 0 where
  pub total : ℕ
  pub counts : Counts

pub record TabletopResult : Type 0 where
  pub scenario : Scenario
  pub bundle_id : ℕ
  pub bundle_version : String
  pub bundle_content_hash : String
  pub action_results : List ActionResult
  pub summary : Summary

-- What a call of `evaluate` does: a verdict, a `PolicyEnforcementError` with its message, or another
-- exception.
pub data Evaluation : Type 0 where
  verdict : PolicyVerdict → Evaluation
  enforcement_error : String → Evaluation
  raised : Error → Evaluation

abbrev pub count_decision : PolicyDecision → Counts → Counts
count_decision PolicyDecision.allow c = record c { allow = c.allow + 1 }
count_decision PolicyDecision.deny c = record c { deny = c.deny + 1 }
count_decision PolicyDecision.escalate c = record c { escalate = c.escalate + 1 }

abbrev pub failed : ActionSpec → String → ActionResult
failed spec message = record {
  label = spec.label;
  decision = none;
  reason = some ("enforcement_error: " ++ message);
  errored = true;
}

abbrev pub decided : ActionSpec → PolicyVerdict → ActionResult
decided spec v = record {
  label = spec.label;
  decision = some v.decision;
  reason = some v.reason;
  errored = false;
}

abbrev pub no_counts : Counts
no_counts = record { allow = 0; deny = 0; escalate = 0; errored = 0 }

-- The loop, with what it has gathered so far.
unfoldable pub run_actions :
    (Value → Evaluation)
    → List ActionSpec
    → List ActionResult
    → Counts
    → Result (List ActionResult × Counts)
run_actions evaluate [] results counts = ok (results, counts)
run_actions evaluate (spec ∷ specs) results counts = elim (evaluate spec.action) [
  | verdict v ↦
      run_actions evaluate specs (results ++ₗ decided spec v ∷ [])
        (count_decision v.decision counts)
  | enforcement_error message ↦
      run_actions evaluate specs (results ++ₗ failed spec message ∷ [])
        (record counts { errored = counts.errored + 1 })
  | raised x ↦ err x
]

abbrev pub report : Scenario → PolicyBundle → List ActionResult × Counts → TabletopResult
report scenario bundle gathered = record {
  scenario = scenario;
  bundle_id = bundle.id;
  bundle_version = bundle.version;
  bundle_content_hash = bundle.content_hash;
  action_results = gathered.0;
  summary = record { total = length scenario.actions; counts = gathered.1 };
}

unfoldable pub simulate_scenario :
    Scenario → PolicyBundle → (ℕ → Value → Evaluation) → Result TabletopResult
simulate_scenario scenario bundle evaluate = do
  require (bundle.tenant_id == scenario.tenant_id) tabletop_error
  require (bundle.id == scenario.policy_bundle_id) tabletop_error
  gathered ← run_actions (evaluate scenario.tenant_id) scenario.actions [] no_counts
  ok (report scenario bundle gathered)

-- `label in seen`
abbrev pub has_label : String → List String → Bool
has_label label [] = false
has_label label (l ∷ ls) = l == label || has_label label ls

specs_of : List String → List (String × Value) → Result (List ActionSpec)
specs_of seen [] = ok []
specs_of seen ((label, payload) ∷ rest) = do
  require (not (has_label label seen)) tabletop_error
  specs ← specs_of (label ∷ seen) rest
  ok (record { label = label; action = payload } ∷ specs)

unfoldable pub build_scenario_from_payloads :
    String → ℕ → ℕ → List (String × Value) → Result Scenario
unfolding specs_of
build_scenario_from_payloads name tenant bundle payloads = do
  require (ltb 0 (length payloads)) tabletop_error
  require (not (ltb 1000 (length payloads))) tabletop_error
  specs ← specs_of [] payloads
  ok (record { name = name; tenant_id = tenant; policy_bundle_id = bundle; actions = specs })

unfoldable pub replay_payloads_as_scenario :
    String
    → ℕ
    → ℕ
    → List (String × Value)
    → PolicyBundle
    → (ℕ → Value → Evaluation)
    → Result TabletopResult
replay_payloads_as_scenario name tenant bundle_id payloads bundle evaluate = do
  scenario ← build_scenario_from_payloads name tenant bundle_id payloads
  simulate_scenario scenario bundle evaluate

abbrev pub labels : List ActionResult → List String
labels = map (λ (r : ActionResult). r.label)
