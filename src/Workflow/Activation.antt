-- ===== src/Workflow/Activation.antt =====
-- packages/ledger/bundle_workflow.py: an activation, which may supersede the bundle before it.
use forensa.Prelude.{
  ℕ, String, ◌≡◌, refl, sym, subst, inl, inr, true, some, List, [], ◌∷◌, arith, workflow_error,
  bundle_not_found, multiple_results, Bool-cases, Option-cases,
}
use forensa.Ledger.{Db, BundleRow, approved, active, superseded, system}
use forensa.Ledger.Exec.{nested}
use forensa.Workflow.{
  find_bundle, status_beq, transition, activate, active_bundles, supersede_prior, supersede_reason,
  replace_active,
}
use forensa.Workflow.Keys.{Keyed, active_bundles_first}
use forensa.Workflow.Steps.{Move, replacing, move, here, next, Decision}
use forensa.Workflow.Refines.{
  Outcome, Outcome-err, nested-Outcome, filled_none, moved, transition-Outcome,
}

abbrev pub superseded_decision : ℕ → ℕ → ℕ → ℕ → Decision
superseded_decision id now bundle_id actor = record {
  id = id;
  now = now;
  actor_id = some actor;
  actor_role = system;
  reason = supersede_reason bundle_id;
}

pub after_supersede :
    (prior_id prior_now id now bundle_id actor : ℕ) (reason : String) (b p : BundleRow) (db : Db)
    → active_bundles b.bundle.tenant_id db.bundles ≡ p ∷ []
    → p.status ≡ active
    → transition id now bundle_id active actor reason
        (moved (superseded_decision prior_id prior_now bundle_id actor) superseded p db)
      ≡ replace_active prior_id prior_now id now bundle_id actor reason b db
unfolding replace_active supersede_prior
after_supersede prior_id prior_now id now bundle_id actor reason b p db e h = ground arith

pub without_prior :
    (prior_id prior_now id now bundle_id actor : ℕ) (reason : String) (b : BundleRow) (db : Db)
    → active_bundles b.bundle.tenant_id db.bundles ≡ []
    → transition id now bundle_id active actor reason db
      ≡ replace_active prior_id prior_now id now bundle_id actor reason b db
unfolding replace_active supersede_prior
without_prior prior_id prior_now id now bundle_id actor reason b db e = ground arith

replace_active-Outcome :
    (prior_id prior_now id now bundle_id actor : ℕ) (reason : String) (b : BundleRow) (db : Db)
    → Keyed db.bundles
    → Outcome db (replace_active prior_id prior_now id now bundle_id actor reason b db)
replace_active-Outcome prior_id prior_now id now bundle_id actor reason b db keyed =
    of_matching (active_bundles b.bundle.tenant_id db.bundles) refl
  where
    of_matching :
        (found : List BundleRow)
        → active_bundles b.bundle.tenant_id db.bundles ≡ found
        → Outcome db (replace_active prior_id prior_now id now bundle_id actor reason b db)
    of_matching [] e =
        subst (Outcome db) (without_prior prior_id prior_now id now bundle_id actor reason b db e) (
          transition-Outcome id now bundle_id active actor reason db db here
            (filled_none bundle_id actor db.approvals))
    of_matching (p ∷ []) e =
        let (found, is_active, _) =
          active_bundles_first b.bundle.tenant_id db.bundles p [] keyed e in
        let d = superseded_decision prior_id prior_now bundle_id actor in
        let db' : Db = moved d superseded p db in
        subst (Outcome db)
          (after_supersede prior_id prior_now id now bundle_id actor reason b p db e is_active)
          (transition-Outcome id now bundle_id active actor reason db db'
            (next here (
              move d actor superseded p found
                (subst (λ s. Move s superseded system) (sym is_active) replacing) refl
                (filled_none p.bundle.id actor db.approvals)))
            (filled_none bundle_id actor db'.approvals))
    of_matching (p ∷ q ∷ rest) e =
        Outcome-err db _ {e = multiple_results} (unfold replace_active in ground arith)

pub activate-eq-nested :
    (prior_id prior_now id now bundle_id actor : ℕ) (reason : String) (b : BundleRow) (db : Db)
    → find_bundle bundle_id db.bundles ≡ some b
    → status_beq b.status approved ≡ true
    → nested (replace_active prior_id prior_now id now bundle_id actor reason b) db
      ≡ activate prior_id prior_now id now bundle_id actor reason db
unfolding activate
activate-eq-nested prior_id prior_now id now bundle_id actor reason b db found ready = ground arith

pub activate-Outcome :
    (prior_id prior_now id now bundle_id actor : ℕ) (reason : String) (db : Db)
    → Keyed db.bundles
    → Outcome db (activate prior_id prior_now id now bundle_id actor reason db)
activate-Outcome prior_id prior_now id now bundle_id actor reason db keyed =
    elim (Option-cases (find_bundle bundle_id db.bundles)) [
      | inl missing ↦ Outcome-err db _ {e = bundle_not_found} (unfold activate in ground arith)
      | inr (b, found) ↦ elim (Bool-cases (status_beq b.status approved)) [
        | inr other ↦ Outcome-err db _ {e = workflow_error} (unfold activate in ground arith)
        | inl ready ↦
            subst (Outcome db)
              (activate-eq-nested prior_id prior_now id now bundle_id actor reason b db found ready)
              (nested-Outcome db (replace_active prior_id prior_now id now bundle_id actor reason b)
                (replace_active-Outcome prior_id prior_now id now bundle_id actor reason b db
                  keyed))
      ]
    ]
