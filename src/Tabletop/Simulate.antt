-- ===== src/Tabletop/Simulate.antt =====
-- packages/policy/tabletop.py: the summary of a simulation counts its results.
use forensa.Prelude.{
  ℕ, ◌+◌, suc, String, ◌≡◌, refl, ap, ◌∙◌, subst, false, Option, some, List, [], ◌∷◌, ◌++◌, map,
  length, if◌then◌else◌, ◌==◌, nat_eq, Result, ok, err, arith, tabletop_error, require,
  require-eq-ok, >>=-eq-ok, ◌>>=◌, ◌>>◌,
}
use forensa.Hash.{Value}
use forensa.Ledger.{PolicyBundle}
use forensa.Policy.{PolicyDecision}
use forensa.Tabletop

-- How many of the results are errors, and how many have the decision.
abbrev pub errors : List Tabletop.ActionResult → ℕ
errors [] = 0
errors (r ∷ rs) = (if r.errored then 1 else 0) + errors rs

abbrev is_decided : PolicyDecision → Option PolicyDecision → ℕ
is_decided PolicyDecision.allow (some PolicyDecision.allow) = 1
is_decided PolicyDecision.deny (some PolicyDecision.deny) = 1
is_decided PolicyDecision.escalate (some PolicyDecision.escalate) = 1
is_decided _ _ = 0

abbrev pub decisions : PolicyDecision → List Tabletop.ActionResult → ℕ
decisions d [] = 0
decisions d (r ∷ rs) = is_decided d r.decision + decisions d rs

errors-append : (xs ys : List Tabletop.ActionResult) → errors (xs ++ ys) ≡ errors xs + errors ys
errors-append [] ys = omega arith
errors-append (x ∷ xs) ys = omega (arith, errors-append xs ys)

decisions-append :
    (d : PolicyDecision) (xs ys : List Tabletop.ActionResult)
    → decisions d (xs ++ ys) ≡ decisions d xs + decisions d ys
decisions-append d [] ys = omega arith
decisions-append d (x ∷ xs) ys = omega (arith, decisions-append d xs ys)

-- The counts are those of the results.
abbrev pub Counted : List Tabletop.ActionResult → Tabletop.Counts → Type 0
Counted rs c =
    (c.allow ≡ decisions PolicyDecision.allow rs)
    × (c.deny ≡ decisions PolicyDecision.deny rs)
    × (c.escalate ≡ decisions PolicyDecision.escalate rs)
    × (c.errored ≡ errors rs)

Counted-decided :
    (d : PolicyDecision) (rs : List Tabletop.ActionResult) (c : Tabletop.Counts)
    (r : Tabletop.ActionResult)
    → r.decision ≡ some d
    → r.errored ≡ false
    → Counted rs c
    → Counted (rs ++ r ∷ []) (Tabletop.count_decision d c)
Counted-decided PolicyDecision.allow rs c r e f h = ground (
  arith,
  e,
  f,
  h,
  decisions-append PolicyDecision.allow rs (r ∷ []),
  decisions-append PolicyDecision.deny rs (r ∷ []),
  decisions-append PolicyDecision.escalate rs (r ∷ []),
  errors-append rs (r ∷ []),
)
Counted-decided PolicyDecision.deny rs c r e f h = ground (
  arith,
  e,
  f,
  h,
  decisions-append PolicyDecision.allow rs (r ∷ []),
  decisions-append PolicyDecision.deny rs (r ∷ []),
  decisions-append PolicyDecision.escalate rs (r ∷ []),
  errors-append rs (r ∷ []),
)
Counted-decided PolicyDecision.escalate rs c r e f h = ground (
  arith,
  e,
  f,
  h,
  decisions-append PolicyDecision.allow rs (r ∷ []),
  decisions-append PolicyDecision.deny rs (r ∷ []),
  decisions-append PolicyDecision.escalate rs (r ∷ []),
  errors-append rs (r ∷ []),
)

Counted-failed :
    (rs : List Tabletop.ActionResult) (c : Tabletop.Counts) (spec : Tabletop.ActionSpec)
    (m : String)
    → Counted rs c
    → Counted (rs ++ Tabletop.failed spec m ∷ []) (record c { errored = c.errored + 1 })
Counted-failed rs c spec m h = (
  omega (arith, h.0, decisions-append PolicyDecision.allow rs (Tabletop.failed spec m ∷ [])),
  omega (arith, h.1, decisions-append PolicyDecision.deny rs (Tabletop.failed spec m ∷ [])),
  omega (arith, h.2, decisions-append PolicyDecision.escalate rs (Tabletop.failed spec m ∷ [])),
  omega (arith, h.3, errors-append rs (Tabletop.failed spec m ∷ [])),
)

total_of : Tabletop.Counts → ℕ
total_of c = c.allow + c.deny + c.escalate + c.errored

labels-nil : (rs : List Tabletop.ActionResult) → Tabletop.labels rs ≡ Tabletop.labels rs ++ []
labels-nil [] = refl
labels-nil (r ∷ rs) = ap (λ ls. r.label ∷ ls) (labels-nil rs)

labels-append :
    (rs : List Tabletop.ActionResult) (r : Tabletop.ActionResult) (ls : List String)
    → Tabletop.labels (rs ++ r ∷ []) ++ ls ≡ Tabletop.labels rs ++ r.label ∷ ls
labels-append [] r ls = refl
labels-append (q ∷ rs) r ls = ap (λ ls. q.label ∷ ls) (labels-append rs r ls)

total_of-count :
    (d : PolicyDecision) (c : Tabletop.Counts)
    → total_of (Tabletop.count_decision d c) ≡ suc (total_of c)
unfolding total_of
total_of-count PolicyDecision.allow c = omega arith
total_of-count PolicyDecision.deny c = omega arith
total_of-count PolicyDecision.escalate c = omega arith

spec_labels : List Tabletop.ActionSpec → List String
spec_labels = map (λ (s : Tabletop.ActionSpec). s.label)

-- What the loop answers for actions with these labels, after these results and counts.
Gathered :
    List Tabletop.ActionResult
    → Tabletop.Counts
    → List Tabletop.ActionSpec
    → List Tabletop.ActionResult × Tabletop.Counts
    → Type 0
unfolding spec_labels
Gathered rs c specs out =
    Counted out.0 out.1
    × (Tabletop.labels out.0 ≡ Tabletop.labels rs ++ spec_labels specs)
    × (total_of out.1 ≡ total_of c + length specs)

run_actions-Counted :
    (evaluate : Value → Tabletop.Evaluation) (specs : List Tabletop.ActionSpec)
    (rs : List Tabletop.ActionResult) (c : Tabletop.Counts)
    (out : List Tabletop.ActionResult × Tabletop.Counts)
    → Counted rs c
    → Tabletop.run_actions evaluate specs rs c ≡ ok out
    → Gathered rs c specs out
unfolding Tabletop.run_actions total_of spec_labels Gathered
run_actions-Counted evaluate [] rs c out k h =
    subst (Gathered rs c []) (cc h) (k, labels-nil rs, omega arith)
run_actions-Counted evaluate (spec ∷ specs) rs c out k h =
    by_case (evaluate spec.action) (λ rs c. run_actions-Counted evaluate specs rs c out) h
  where
    by_case :
        (a : Tabletop.Evaluation)
        → ((rs : List Tabletop.ActionResult) (c : Tabletop.Counts)
            → Counted rs c
            → Tabletop.run_actions evaluate specs rs c ≡ ok out
            → Gathered rs c specs out)
        → (elim a as (λ _. Result (List Tabletop.ActionResult × Tabletop.Counts)) [
          | Tabletop.verdict v ↦
              Tabletop.run_actions evaluate specs
                (rs ++ Tabletop.decided spec v ∷ [])
                (Tabletop.count_decision v.decision c)
          | Tabletop.enforcement_error message ↦
              Tabletop.run_actions evaluate specs
                (rs ++ Tabletop.failed spec message ∷ [])
                (record c { errored = c.errored + 1 })
          | Tabletop.raised x ↦ err x
        ])
          ≡ ok out
        → Gathered rs c (spec ∷ specs) out
    by_case (Tabletop.verdict v) again h =
        let r = Tabletop.decided spec v in
        let (counted, named, sum) =
          again (rs ++ r ∷ []) (Tabletop.count_decision v.decision c)
            (Counted-decided v.decision rs c r refl refl k) h in
        (
          counted,
          named ∙ labels-append rs r (spec_labels specs),
          omega (arith, sum, total_of-count v.decision c),
        )
    by_case (Tabletop.enforcement_error m) again h =
        let r = Tabletop.failed spec m in
        let (counted, named, sum) =
          again (rs ++ r ∷ []) (record c { errored = c.errored + 1 }) (Counted-failed rs c spec m k)
            h in
        (counted, named ∙ labels-append rs r (spec_labels specs), omega (arith, sum))
    by_case (Tabletop.raised x) again h = cc

-- A simulation that returns has one result for each action, under its label and in its order; the
-- counts of its summary are those of its results, and add up to the total.
pub simulate_scenario-counts :
    (scenario : Tabletop.Scenario) (bundle : PolicyBundle)
    (evaluate : ℕ → Value → Tabletop.Evaluation) (res : Tabletop.TabletopResult)
    → Tabletop.simulate_scenario scenario bundle evaluate ≡ ok res
    → (Tabletop.labels res.action_results
        ≡ map (λ (s : Tabletop.ActionSpec). s.label) scenario.actions)
      × Counted res.action_results res.summary.counts
      × (res.summary.counts.allow + res.summary.counts.deny + res.summary.counts.escalate
            + res.summary.counts.errored
          ≡ res.summary.total)
unfolding Tabletop.simulate_scenario total_of spec_labels Gathered
simulate_scenario-counts scenario bundle evaluate res h =
    let (_, h1) =
      require-eq-ok (bundle.tenant_id == scenario.tenant_id) tabletop_error
        (require (bundle.id == scenario.policy_bundle_id) tabletop_error >> gather) h in
    let (_, h2) = require-eq-ok (bundle.id == scenario.policy_bundle_id) tabletop_error gather h1 in
    let (out, ran, h3) =
      >>=-eq-ok
        (Tabletop.run_actions (evaluate scenario.tenant_id) scenario.actions [] Tabletop.no_counts)
        report h2 in
    let (counted, named, sum) =
      run_actions-Counted (evaluate scenario.tenant_id) scenario.actions [] Tabletop.no_counts out
        (refl, refl, refl, refl) ran in
    subst
      (λ (o : Tabletop.TabletopResult).
        (Tabletop.labels o.action_results ≡ spec_labels scenario.actions)
        × Counted o.action_results o.summary.counts
        × (total_of o.summary.counts ≡ o.summary.total))
      {x = Tabletop.report scenario bundle out} {y = res} (cc h3)
      (named, counted, omega (arith, sum))
  where
    report : List Tabletop.ActionResult × Tabletop.Counts → Result Tabletop.TabletopResult
    report g = ok (Tabletop.report scenario bundle g)

    gather : Result Tabletop.TabletopResult
    gather =
        Tabletop.run_actions (evaluate scenario.tenant_id) scenario.actions [] Tabletop.no_counts
        >>= report
