-- ===== src/Workflow/Refines.antt =====
-- packages/ledger/bundle_workflow.py: each call but an activation is a series of steps or raises.
use forensa.Prelude.{
  ℕ, String, ◌≡◌, refl, sym, subst, inl, inr, true, false, Option, some, List, [], ◌∷◌, arith, ok,
  err, Result, Error, workflow_error, bundle_not_found, integrity_error, segregation_error, not,
  ◌||◌, Bool-cases, Option-cases, is_blank,
}
use forensa.Ledger.{
  Db, BundleRow, BundleStatus, proposed, reviewed, approved, active, superseded, author, reviewer,
  ApprovalRow,
}
use forensa.Ledger.Exec.{Exec, nested}
use forensa.Workflow.{
  valid_transition, required_role, find_bundle, set_status, filled, status_beq, transition, propose,
  review, approve, supersede, no_other_active,
}
use forensa.Workflow.Keys.{find_bundle_id, find_bundle_self, status_beq_iff}
use forensa.Workflow.Moves.{valid_transition-Move}
use forensa.Workflow.Steps.{sign_off, move, Steps, here, next, forbidden, Decision, logged}

-- A result stands behind a series of steps; an exception is rolled back later.
abbrev pub Outcome {ℓ} : {A : Type ℓ} → Db → Result A × Db → Type 0
Outcome db (ok _, db') = Steps db db'
Outcome db (err _, db') = Unit

pub Outcome-err {ℓ} :
    {A : Type ℓ} (start : Db) (r : Result A × Db) {e : Error} → r.0 ≡ err e → Outcome start r
Outcome-err start (ok a, db) h = cc
Outcome-err start (err e, db) h = tt

pub Outcome-ok {ℓ} :
    {A : Type ℓ} (start db : Db) (r : Result A × Db) {a : A}
    → r ≡ (ok a, db)
    → Steps start db
    → Outcome start r
Outcome-ok start db r h steps = rw h steps

abbrev pub moved : Decision → BundleStatus → BundleRow → Db → Db
moved e target b db = record db {
  bundles = set_status b.bundle.id target db.bundles;
  approvals = logged e b target db.approvals;
}

pub transition-eq-moved :
    (id now bundle_id : ℕ) (target : BundleStatus) (actor : ℕ) (reason : String) (db : Db)
    (b : BundleRow)
    → is_blank reason ≡ false
    → find_bundle bundle_id db.bundles ≡ some b
    → valid_transition b.status target ≡ true
    → (not (status_beq target active) || no_other_active b.bundle.id b.bundle.tenant_id db.bundles)
      ≡ true
    → transition id now bundle_id target actor reason db ≡ (
      ok id,
      moved
          (record {
            id = id;
            now = now;
            actor_id = some actor;
            actor_role = required_role target;
            reason = reason;
          })
          target
          b
          db,
    )
unfolding transition
transition-eq-moved id now bundle_id target actor reason db b hr hb hv hf = ground arith

pub transition-Outcome :
    (id now bundle_id : ℕ) (target : BundleStatus) (actor : ℕ) (reason : String) (start db : Db)
    → Steps start db
    → filled (forbidden target) bundle_id actor db.approvals ≡ false
    → Outcome start (transition id now bundle_id target actor reason db)
transition-Outcome id now bundle_id target actor reason start db steps free =
    elim (Bool-cases (is_blank reason)) [
      | inl blank ↦ Outcome-err start _ {e = workflow_error} (unfold transition in ground arith)
      | inr given ↦ elim (Option-cases (find_bundle bundle_id db.bundles)) [
        | inl missing ↦
            Outcome-err start _ {e = bundle_not_found} (unfold transition in ground arith)
        | inr (b, found) ↦ elim (Bool-cases (valid_transition b.status target)) [
          | inr invalid ↦
              Outcome-err start _ {e = workflow_error} (unfold transition in ground arith)
          | inl valid ↦
              elim (Bool-cases (
                not (status_beq target active)
                || no_other_active b.bundle.id b.bundle.tenant_id db.bundles)) [
                  | inr taken ↦
                      Outcome-err start _ {e = integrity_error} (unfold transition in ground arith)
                  | inl unique ↦
                      Outcome-ok start _ _
                        (transition-eq-moved id now bundle_id target actor reason db b given found
                          valid unique)
                        (next steps (
                          move _ actor target b (find_bundle_self bundle_id db.bundles found)
                            (valid_transition-Move b.status target valid) refl
                            (subst (λ i. filled (forbidden target) i actor db.approvals ≡ false)
                              (sym (find_bundle_id bundle_id db.bundles found)) free)))
                ]
        ]
      ]
    ]

pub propose-Outcome :
    (id now bundle_id : ℕ) (author_actor : Option ℕ) (reason : String) (db : Db)
    → Outcome db (propose id now bundle_id author_actor reason db)
propose-Outcome id now bundle_id author_actor reason db =
    elim (Option-cases (find_bundle bundle_id db.bundles)) [
      | inl missing ↦ Outcome-err db _ {e = bundle_not_found} (unfold propose in ground arith)
      | inr (b, found) ↦ elim (Bool-cases (status_beq b.status proposed)) [
        | inr late ↦ Outcome-err db _ {e = workflow_error} (unfold propose in ground arith)
        | inl early ↦
            let e : Decision = record {
              id = id;
              now = now;
              actor_id = author_actor;
              actor_role = author;
              reason = reason;
            } in
            Outcome-ok db (record db { approvals = logged e b proposed db.approvals }) _ {a = id}
              (unfold propose in ground (arith, status_beq_iff b.status proposed))
              (next here (
                sign_off e b (find_bundle_self bundle_id db.bundles found)
                  ((status_beq_iff b.status proposed).0 early) refl))
      ]
    ]

review-eq-transition :
    (id now bundle_id actor : ℕ) (reason : String) (db : Db)
    → filled (author ∷ []) bundle_id actor db.approvals ≡ false
    → transition id now bundle_id reviewed actor reason db ≡ review id now bundle_id actor reason db
unfolding review
review-eq-transition id now bundle_id actor reason db free = ground arith

approve-eq-transition :
    (id now bundle_id actor : ℕ) (reason : String) (db : Db)
    → filled (author ∷ reviewer ∷ []) bundle_id actor db.approvals ≡ false
    → transition id now bundle_id approved actor reason db
      ≡ approve id now bundle_id actor reason db
unfolding approve
approve-eq-transition id now bundle_id actor reason db free = ground arith

pub review-Outcome :
    (id now bundle_id actor : ℕ) (reason : String) (db : Db)
    → Outcome db (review id now bundle_id actor reason db)
unfolding review
review-Outcome id now bundle_id actor reason db =
    elim (Bool-cases (filled (author ∷ []) bundle_id actor db.approvals)) [
      | inl clash ↦ Outcome-err db _ {e = segregation_error} (ground arith)
      | inr free ↦
          subst (Outcome db) (review-eq-transition id now bundle_id actor reason db free)
            (transition-Outcome id now bundle_id reviewed actor reason db db here free)
    ]

pub approve-Outcome :
    (id now bundle_id actor : ℕ) (reason : String) (db : Db)
    → Outcome db (approve id now bundle_id actor reason db)
unfolding approve
approve-Outcome id now bundle_id actor reason db =
    elim (Bool-cases (filled (author ∷ reviewer ∷ []) bundle_id actor db.approvals)) [
      | inl clash ↦ Outcome-err db _ {e = segregation_error} (ground arith)
      | inr free ↦
          subst (Outcome db) (approve-eq-transition id now bundle_id actor reason db free)
            (transition-Outcome id now bundle_id approved actor reason db db here free)
    ]

pub filled_none :
    (bundle_id actor : ℕ) (log : List ApprovalRow) → filled [] bundle_id actor log ≡ false
unfolding filled
filled_none bundle_id actor [] = refl
filled_none bundle_id actor (r ∷ rs) = ground (arith, filled_none bundle_id actor rs)

pub supersede-Outcome :
    (id now bundle_id actor : ℕ) (reason : String) (db : Db)
    → Outcome db (supersede id now bundle_id actor reason db)
unfolding supersede
supersede-Outcome id now bundle_id actor reason db =
    transition-Outcome id now bundle_id superseded actor reason db db here
      (filled_none bundle_id actor db.approvals)

pub nested-Outcome {ℓ} :
    {A : Type ℓ} (db : Db) (m : Exec A) → Outcome db (m db) → Outcome db (nested m db)
nested-Outcome {A = A} db m h = of_result (m db) h
  where
    of_result :
        (r : Result A × Db)
        → Outcome db r
        → Outcome db (
            let (x, db') = r in
            elim x as (λ _. Result A × Db) [ ok a ↦ (ok a, db') | err e ↦ (err e, db) ])
    of_result (ok a, db') h = h
    of_result (err e, db') h = tt
