-- ===== src/Ingest/Keeps.antt =====
-- apps/api/ingest_service.py: `PostgresBundleProvider` and the workflow under it touch no receipt.
use forensa.Prelude.{
  ℕ, String, ◌≡◌, refl, ◌∙◌, Bool, true, false, not, Option, none, some, List, [], ◌∷◌,
  if◌then◌else◌, Result, ok, err, Error, workflow_error, arith,
}
use forensa.Hash.{Value}
use forensa.Ledger.{
  Db, PolicyBundle, BundleRow, BundleStatus, ActorRole, author, reviewer, proposed, reviewed,
  approved, active,
}
use forensa.Ledger.Exec.{Exec, pure, lift, session_scope, nested, raise_if, flush, ◌>>=◌, ◌>>◌}
use forensa.Policy.{BundleFields, build_bundle}
use forensa.Bundles.{get_active_bundle_for_tenant, write_bundle, flush_bundle, is_new_bundle}
use forensa.Workflow
use forensa.Workflow.{status_beq}
use forensa.Ingest.Bootstrap.{
  BootstrapDraws, reason, auto_activate, finish, bootstrap, get_active_bundle,
}

-- Code that leaves the receipts as they are.
abbrev pub Keeps {ℓ} : {A : Type ℓ} → Exec A → Type 0
Keeps m = (db : Db) → (m db).1.receipts ≡ db.receipts

Keeps-bind {ℓ κ} :
    {A : Type ℓ} {B : Type κ} (m : Exec A) (k : A → Exec B)
    → Keeps m
    → ((a : A) → Keeps (k a))
    → Keeps (m >>= k)
Keeps-bind {A = A} {B = B} m k h g db = of_result (m db) (h db)
  where
    of_result :
        (o : Result A × Db)
        → o.1.receipts ≡ db.receipts
        → (elim o.0 as (λ _. Result B × Db) [ ok a ↦ k a o.1 | err e ↦ (err e, o.1) ]).1.receipts
          ≡ db.receipts
    of_result (ok a, mid) q = g a mid ∙ q
    of_result (err e, mid) q = q

Keeps-scope {ℓ} : {A : Type ℓ} (m : Exec A) → Keeps m → Keeps (session_scope m)
Keeps-scope {A = A} m h db = of_result (m db) (h db)
  where
    of_result :
        (o : Result A × Db)
        → o.1.receipts ≡ db.receipts
        → (elim o.0 as (λ _. Result A × Db) [ ok a ↦ (ok a, o.1) | err e ↦ (err e, db) ]).1.receipts
          ≡ db.receipts
    of_result (ok a, mid) q = q
    of_result (err e, mid) q = refl

load_bundle-Keeps : (id : ℕ) → Keeps (Workflow.load_bundle id)
unfolding Workflow.load_bundle
load_bundle-Keeps id db = ground arith

flush_status-Keeps : (b : BundleRow) (t : BundleStatus) → Keeps (Workflow.flush_status b t)
unfolding Workflow.flush_status
flush_status-Keeps b t db = ground arith

transition-Keeps :
    (id now b : ℕ) (t : BundleStatus) (actor : ℕ) (r : String)
    → Keeps (Workflow.transition id now b t actor r)
unfolding Workflow.transition Workflow.write_approval Workflow.load_bundle Workflow.flush_status
transition-Keeps id now b t actor r db = ground arith

propose-Keeps :
    (id now b : ℕ) (actor : Option ℕ) (r : String) → Keeps (Workflow.propose id now b actor r)
unfolding Workflow.propose Workflow.load_bundle Workflow.write_approval
propose-Keeps id now b actor r db = ground arith

segregation-Keeps :
    (b actor : ℕ) (roles : List ActorRole) → Keeps (Workflow.enforce_segregation b actor roles)
unfolding Workflow.enforce_segregation
segregation-Keeps b actor roles db = ground arith

review-Keeps : (id now b actor : ℕ) (r : String) → Keeps (Workflow.review id now b actor r)
unfolding Workflow.review
review-Keeps id now b actor r =
    Keeps-bind (Workflow.enforce_segregation b actor (author ∷ []))
      (λ _. Workflow.transition id now b reviewed actor r) (segregation-Keeps b actor (author ∷ []))
      (λ _. transition-Keeps id now b reviewed actor r)

approve-Keeps : (id now b actor : ℕ) (r : String) → Keeps (Workflow.approve id now b actor r)
unfolding Workflow.approve
approve-Keeps id now b actor r =
    Keeps-bind (Workflow.enforce_segregation b actor (author ∷ reviewer ∷ []))
      (λ _. Workflow.transition id now b approved actor r)
      (segregation-Keeps b actor (author ∷ reviewer ∷ []))
      (λ _. transition-Keeps id now b approved actor r)

supersede_prior-Keeps :
    (id now b actor : ℕ) (prior : Option BundleRow)
    → Keeps (Workflow.supersede_prior id now b actor prior)
unfolding Workflow.supersede_prior Workflow.write_approval Workflow.flush_status
supersede_prior-Keeps id now b actor none db = refl
supersede_prior-Keeps id now b actor (some prior) db = ground arith

one_or_none-Keeps : (rows : List BundleRow) → Keeps (Workflow.one_or_none rows)
one_or_none-Keeps [] db = refl
one_or_none-Keeps (r ∷ []) db = refl
one_or_none-Keeps (r ∷ q ∷ rest) db = refl

replace_active-Keeps :
    (id0 now0 id now b actor : ℕ) (r : String) (row : BundleRow)
    → Keeps (Workflow.replace_active id0 now0 id now b actor r row)
unfolding Workflow.replace_active
replace_active-Keeps id0 now0 id now b actor r row db =
    Keeps-bind (Workflow.one_or_none (Workflow.active_bundles row.bundle.tenant_id db.bundles))
      (λ prior.
        Workflow.supersede_prior id0 now0 b actor prior
        >> Workflow.transition id now b active actor r)
      (one_or_none-Keeps (Workflow.active_bundles row.bundle.tenant_id db.bundles))
      (λ prior.
        Keeps-bind (Workflow.supersede_prior id0 now0 b actor prior)
          (λ _. Workflow.transition id now b active actor r)
          (supersede_prior-Keeps id0 now0 b actor prior)
          (λ _. transition-Keeps id now b active actor r))
      db

activate-Keeps :
    (id0 now0 id now b actor : ℕ) (r : String) → Keeps (Workflow.activate id0 now0 id now b actor r)
unfolding Workflow.activate
activate-Keeps id0 now0 id now b actor r =
    Keeps-bind (Workflow.load_bundle b)
      (λ row.
        raise_if (not (status_beq row.status approved)) workflow_error
        >> nested (Workflow.replace_active id0 now0 id now b actor r row))
      (load_bundle-Keeps b)
      (λ row.
        Keeps-bind (raise_if (not (status_beq row.status approved)) workflow_error)
          (λ _. nested (Workflow.replace_active id0 now0 id now b actor r row)) (λ db. refl)
          (λ _.
            Keeps-scope (Workflow.replace_active id0 now0 id now b actor r row)
              (replace_active-Keeps id0 now0 id now b actor r row)))

flush-Keeps :
    (allowed : Db → Bool) (write : Db → Db)
    → ((db : Db) → (write db).receipts ≡ db.receipts)
    → Keeps (flush allowed write)
flush-Keeps allowed write h db = of_answer (allowed db)
  where
    answer : Bool → Result (Unit {0}) × Db
    answer c = if c then (ok tt, write db) else (err Error.integrity_error, db)

    of_answer : (c : Bool) → (answer c).1.receipts ≡ db.receipts
    of_answer true = h db
    of_answer false = refl

flush_bundle-Keeps : (bundle : PolicyBundle) → Keeps (flush_bundle bundle)
unfolding flush_bundle
flush_bundle-Keeps bundle =
    flush-Keeps (λ db. is_new_bundle bundle db.bundles)
      (λ db. record db { bundles = record { bundle = bundle; status = proposed } ∷ db.bundles })
      (λ db. refl)

write_bundle-Keeps : (bundle : PolicyBundle) → Keeps (write_bundle bundle)
unfolding write_bundle flush_bundle
write_bundle-Keeps bundle =
    Keeps-bind (flush_bundle bundle) (λ _. pure bundle.id) (flush_bundle-Keeps bundle)
      (λ _ db. refl)

auto_activate-Keeps : (d : BootstrapDraws) (b : ℕ) → Keeps (auto_activate d b)
unfolding auto_activate
auto_activate-Keeps d b =
    let last =
      Workflow.activate d.prior_id d.decided_at d.activation_id d.decided_at b d.activator_actor
        reason in
    let third = Workflow.approve d.approval_id d.decided_at b d.approver_actor reason in
    let second = Workflow.review d.review_id d.decided_at b d.reviewer_actor reason in
    Keeps-bind (Workflow.propose d.proposal_id d.decided_at b (some d.author_actor) reason)
      (λ _. second >> (third >> last))
      (propose-Keeps d.proposal_id d.decided_at b (some d.author_actor) reason)
      (λ _.
        Keeps-bind second (λ _. third >> last)
          (review-Keeps d.review_id d.decided_at b d.reviewer_actor reason)
          (λ _.
            Keeps-bind third (λ _. last)
              (approve-Keeps d.approval_id d.decided_at b d.approver_actor reason)
              (λ _.
                activate-Keeps d.prior_id d.decided_at d.activation_id d.decided_at b
                  d.activator_actor reason)))

finish-Keeps :
    (d : BootstrapDraws) (auto : Bool) (bundle : PolicyBundle) → Keeps (finish d auto bundle)
unfolding finish
finish-Keeps d false bundle = λ db. refl
finish-Keeps d true bundle =
    Keeps-bind (auto_activate d bundle.id) (λ _. pure bundle) (auto_activate-Keeps d bundle.id)
      (λ _ db. refl)

module _ (sha256 : List ℕ → String) (schema : BundleFields) (content : Value) (auto : Bool) where
  bootstrap-Keeps :
      (d : BootstrapDraws) (tenant : ℕ) (existing : Option PolicyBundle)
      → Keeps (bootstrap sha256 schema content auto d tenant existing)
  unfolding bootstrap
  bootstrap-Keeps d tenant (some existing) = λ db. refl
  bootstrap-Keeps d tenant none =
      Keeps-bind (lift (build_bundle sha256 schema d.bundle_id d.created_at tenant "1.0.0" content))
        (λ bundle. write_bundle bundle >> finish d auto bundle) (λ db. refl)
        (λ bundle.
          Keeps-bind (write_bundle bundle) (λ _. finish d auto bundle) (write_bundle-Keeps bundle)
            (λ _. finish-Keeps d auto bundle))

  -- The bundle provider over the database leaves the receipts as they are, whatever it finds
  -- and wherever it fails.
  pub get_active_bundle-Keeps :
      (d : BootstrapDraws) (tenant : ℕ)
      → Keeps (get_active_bundle sha256 schema content auto d tenant)
  unfolding get_active_bundle get_active_bundle_for_tenant
  get_active_bundle-Keeps d tenant =
      Keeps-scope
        (get_active_bundle_for_tenant tenant >>= bootstrap sha256 schema content auto d tenant)
        (Keeps-bind (get_active_bundle_for_tenant tenant)
          (bootstrap sha256 schema content auto d tenant) (λ db. refl) (bootstrap-Keeps d tenant))
