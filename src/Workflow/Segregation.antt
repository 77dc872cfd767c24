-- ===== src/Workflow/Segregation.antt =====
-- packages/ledger/bundle_workflow.py: segregation of duties, over everything that the workflow can do.
use forensa.Prelude.{ℕ, ◌≡◌, refl, Bool, true, false, ◌&&◌, List, arith, nat_eq, option_eq}
use forensa.Ledger.{Db, author, reviewer, approver, empty_db}
use forensa.Workflow.{find_bundle, filled}
use forensa.Workflow.Requests.{Request, serve, serve-Steps}
use forensa.Workflow.Moves.{Move-valid, Move-role}
use forensa.Workflow.Steps.{Step, add, sign_off, move, Steps, here, next}
use forensa.Workflow.Roles.{
  acted, IsSegregated, add-IsSegregated, sign_off-IsSegregated, move-IsSegregated,
}

Step-IsSegregated : {db db' : Db} → Step db db' → IsSegregated db → IsSegregated db'
Step-IsSegregated {db} (add bundle new) s = add-IsSegregated db bundle new s
Step-IsSegregated {db} (sign_off e b found early role) s =
    sign_off-IsSegregated db e b found early role s
Step-IsSegregated {db} (move e actor target b found moves who free) s =
    move-IsSegregated db e actor target b found (Move-valid moves) who (Move-role moves) free s

pub Steps-IsSegregated : {db db' : Db} → Steps db db' → IsSegregated db → IsSegregated db'
Steps-IsSegregated here s = s
Steps-IsSegregated (next steps step) s = Step-IsSegregated step (Steps-IsSegregated steps s)

empty_db-IsSegregated : IsSegregated empty_db
unfolding find_bundle filled
empty_db-IsSegregated = record {
  known = λ q i a h. refl;
  unreviewed = λ i a b h e. (refl, refl);
  unapproved = λ i a b h e. refl;
  reviewer_apart = λ i a h. refl;
  approver_apart = λ i a h. (refl, refl);
}

apart : (m n : Bool) → (n ≡ true → m ≡ false) → (m && n) ≡ false
apart m n h = ground arith

-- From an empty ledger, after any sequence of requests to the approval workflow, the refused ones
-- among them, no actor has acted in two of the roles of author, reviewer and approver for one
-- bundle.
pub serve_segregates :
    (requests : List Request) (bundle_id actor : ℕ)
    → ((acted author bundle_id actor (serve empty_db requests)
          && acted reviewer bundle_id actor (serve empty_db requests))
        ≡ false)
      × ((acted author bundle_id actor (serve empty_db requests)
            && acted approver bundle_id actor (serve empty_db requests))
          ≡ false)
      × ((acted reviewer bundle_id actor (serve empty_db requests)
            && acted approver bundle_id actor (serve empty_db requests))
          ≡ false)
serve_segregates requests i a =
    let s = Steps-IsSegregated (serve-Steps empty_db requests tt).0 empty_db-IsSegregated in
    (
      apart _ _ (s.reviewer_apart i a),
      apart _ _ (λ h. (s.approver_apart i a h).0),
      apart _ _ (λ h. (s.approver_apart i a h).1),
    )
