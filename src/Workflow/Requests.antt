-- ===== src/Workflow/Requests.antt =====
-- The calls that change bundles, each in a transaction of its own (`session_scope`), one after another.
use forensa.Prelude.{
  ℕ, String, ◌≡◌, ◌⊎◌, Error, refl, ap, ◌∙◌, if◌then◌else◌, inl, inr, Bool, true, false, Option,
  none, List, [], ◌∷◌, arith, ok, err, Result, Bool-cases, integrity_error,
}
use forensa.Ledger.{Db, PolicyBundle, BundleRow, proposed}
use forensa.Ledger.Exec.{Exec, session_scope}
use forensa.Workflow
use forensa.Workflow.{find_bundle}
use forensa.Workflow.Keys.{Keyed, set_status-Keyed}
use forensa.Workflow.Steps.{Step, add, sign_off, move, Steps, here, next}
use forensa.Workflow.Refines.{
  Outcome, Outcome-ok, Outcome-err, propose-Outcome, review-Outcome, approve-Outcome,
  supersede-Outcome,
}
use forensa.Workflow.Activation.{activate-Outcome}
use forensa.Bundles.{is_new_bundle, flush_bundle, write_bundle}

-- Each with the ids and times that the call draws.
pub data Request : Type 0 where
  write : PolicyBundle → Request
  propose : ℕ → ℕ → ℕ → Option ℕ → String → Request
  review approve supersede : ℕ → ℕ → ℕ → ℕ → String → Request
  activate : ℕ → ℕ → ℕ → ℕ → ℕ → ℕ → String → Request

unfoldable pub call : Request → Exec ℕ
call (Request.write bundle) = write_bundle bundle
call (Request.propose id now b actor reason) = Workflow.propose id now b actor reason
call (Request.review id now b actor reason) = Workflow.review id now b actor reason
call (Request.approve id now b actor reason) = Workflow.approve id now b actor reason
call (Request.supersede id now b actor reason) = Workflow.supersede id now b actor reason
call (Request.activate id0 now0 id now b actor reason) =
    Workflow.activate id0 now0 id now b actor reason

unfoldable pub serve : Db → List Request → Db
serve db [] = db
serve db (r ∷ rs) = serve (session_scope (call r) db).1 rs

is_new_bundle-find_bundle :
    (bundle : PolicyBundle) (rows : List BundleRow)
    → is_new_bundle bundle rows ≡ true
    → find_bundle bundle.id rows ≡ none
unfolding is_new_bundle find_bundle
is_new_bundle-find_bundle bundle [] h = refl
is_new_bundle-find_bundle bundle (r ∷ rows) h =
    ground (arith, is_new_bundle-find_bundle bundle rows)

abbrev added : PolicyBundle → Db → Db
added bundle db = record db { bundles = record { bundle = bundle; status = proposed } ∷ db.bundles }

-- `write_bundle`, when the check of its constraints answers `c`.
abbrev attempt : Bool → PolicyBundle → Exec ℕ
attempt c bundle db = (if c then (ok bundle.id, added bundle db) else (err integrity_error, db))

write_bundle-attempt :
    (c : Bool) (bundle : PolicyBundle) (db : Db)
    → is_new_bundle bundle db.bundles ≡ c
    → write_bundle bundle db ≡ attempt c bundle db
unfolding write_bundle flush_bundle
write_bundle-attempt c bundle db h =
    ap (λ q. followed (if q then (ok tt, added bundle db) else (err integrity_error, db))) h
    ∙ by_answer c
  where
    followed : Result (Unit {0}) × Db → Result ℕ × Db
    followed o = elim o.0 [ ok _ ↦ (ok bundle.id, o.1) | err e ↦ (err e, o.1) ]

    by_answer :
        (q : Bool)
        → followed (if q then (ok tt, added bundle db) else (err integrity_error, db))
          ≡ attempt q bundle db
    by_answer true = refl
    by_answer false = refl

write_bundle-eq-added :
    (bundle : PolicyBundle) (db : Db)
    → is_new_bundle bundle db.bundles ≡ true
    → write_bundle bundle db ≡ (ok bundle.id, added bundle db)
unfolding write_bundle flush_bundle
write_bundle-eq-added bundle db new = write_bundle-attempt true bundle db new

write_bundle-taken :
    (bundle : PolicyBundle) (db : Db)
    → is_new_bundle bundle db.bundles ≡ false
    → (write_bundle bundle db).0 ≡ err integrity_error
unfolding write_bundle flush_bundle
write_bundle-taken bundle db old = ap (λ o. o.0) (write_bundle-attempt false bundle db old)

write_bundle-Outcome : (bundle : PolicyBundle) (db : Db) → Outcome db (write_bundle bundle db)
write_bundle-Outcome bundle db = elim (Bool-cases (is_new_bundle bundle db.bundles)) [
  | inl new ↦
      Outcome-ok db (added bundle db) _ (write_bundle-eq-added bundle db new)
        (next here (add bundle (is_new_bundle-find_bundle bundle db.bundles new)))
  | inr old ↦ Outcome-err db _ (write_bundle-taken bundle db old)
]

call-Outcome : (r : Request) (db : Db) → Keyed db.bundles → Outcome db (call r db)
unfolding call
call-Outcome (Request.write bundle) db k = write_bundle-Outcome bundle db
call-Outcome (Request.propose id now b actor reason) db k = propose-Outcome id now b actor reason db
call-Outcome (Request.review id now b actor reason) db k = review-Outcome id now b actor reason db
call-Outcome (Request.approve id now b actor reason) db k = approve-Outcome id now b actor reason db
call-Outcome (Request.supersede id now b actor reason) db k =
    supersede-Outcome id now b actor reason db
call-Outcome (Request.activate id0 now0 id now b actor reason) db k =
    activate-Outcome id0 now0 id now b actor reason db k

-- Of the requests in order, each that raises leaves the database as it was, and each that returns
-- leaves it by steps of the specification.
abbrev pub Served : Db → List Request → Type 0
Served db [] = Unit
Served db (r ∷ rs) =
    (((x : Error) × ((session_scope (call r) db).0 ≡ err x) × ((session_scope (call r) db).1 ≡ db))
      ⊎ ((id : ℕ) × ((session_scope (call r) db).0 ≡ ok id)
          × Steps db (session_scope (call r) db).1))
    × Served (session_scope (call r) db).1 rs

scope-cases :
    (m : Exec ℕ) (db : Db)
    → Outcome db (m db)
    → ((x : Error) × ((session_scope m db).0 ≡ err x) × ((session_scope m db).1 ≡ db))
      ⊎ ((id : ℕ) × ((session_scope m db).0 ≡ ok id) × Steps db (session_scope m db).1)
scope-cases m db h = of_result (m db) h
  where
    of_result :
        (r : Result ℕ × Db)
        → Outcome db r
        → ((x : Error) × ((session_scope (λ _. r) db).0 ≡ err x)
            × ((session_scope (λ _. r) db).1 ≡ db))
          ⊎ ((id : ℕ) × ((session_scope (λ _. r) db).0 ≡ ok id)
              × Steps db (session_scope (λ _. r) db).1)
    of_result (ok a, db') steps = inr (a, refl, steps)
    of_result (err e, db') _ = inl (e, refl, refl)

-- What a transaction leaves: the steps of a call that returned, or the database as it was.
scope-Steps {ℓ} :
    {A : Type ℓ} (m : Exec A) (db : Db) → Outcome db (m db) → Steps db (session_scope m db).1
scope-Steps {A = A} m db h = of_result (m db) h
  where
    of_result :
        (r : Result A × Db)
        → Outcome db r
        → Steps db (elim r.0 as (λ _. Result A × Db) [ ok a ↦ (ok a, r.1) | err e ↦ (err e, db) ]).1
    of_result (ok a, db') steps = steps
    of_result (err e, db') _ = here

pub Step-Keyed : {db db' : Db} → Step db db' → Keyed db.bundles → Keyed db'.bundles
Step-Keyed (add bundle new) k = (new, k)
Step-Keyed (sign_off e b found early role) k = k
Step-Keyed {db} (move e actor target b found moves who free) k =
    set_status-Keyed b.bundle.id target db.bundles k

pub Steps-Keyed : {db db' : Db} → Steps db db' → Keyed db.bundles → Keyed db'.bundles
Steps-Keyed here k = k
Steps-Keyed (next steps step) k = Step-Keyed step (Steps-Keyed steps k)

pub Steps-trans : {a b c : Db} → Steps a b → Steps b c → Steps a c
Steps-trans s here = s
Steps-trans s (next t step) = next (Steps-trans s t) step

-- From a database whose bundles have distinct keys, any sequence of requests to the workflow,
-- failing ones among them, is a series of steps of its specification: of the requests in order,
-- each that raises leaves the database as it was, and each that returns leaves it by such steps.
pub serve-Steps :
    (db : Db) (requests : List Request)
    → Keyed db.bundles
    → Steps db (serve db requests) × Served db requests
unfolding serve
serve-Steps db [] k = (here, tt)
serve-Steps db (r ∷ rs) k =
    let first = scope-Steps (call r) db (call-Outcome r db k) in
    let (rest, served) = serve-Steps (session_scope (call r) db).1 rs (Steps-Keyed first k) in
    (Steps-trans first rest, (scope-cases (call r) db (call-Outcome r db k), served))
