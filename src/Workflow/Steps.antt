-- ===== src/Workflow/Steps.antt =====
-- The workflow as a step relation on the database: what one request may do to it.
use forensa.Prelude.{ℕ, String, ◌≡◌, false, Option, none, some, List, [], ◌∷◌, nat_eq}
use forensa.Ledger.{
  Db, PolicyBundle, BundleRow, ApprovalRow, BundleStatus, proposed, reviewed, approved, ActorRole,
  author, reviewer, approver, activator, system, active, superseded,
}
use forensa.Workflow.{find_bundle, set_status, filled}

-- The roles that the actor of a transition may not have filled before.
abbrev pub forbidden : BundleStatus → List ActorRole
forbidden reviewed = author ∷ []
forbidden approved = author ∷ reviewer ∷ []
forbidden _ = []

pub record Decision : Type 0 where
  pub id : ℕ
  pub now : ℕ
  pub actor_id : Option ℕ
  pub actor_role : ActorRole
  pub reason : String

abbrev pub logged : Decision → BundleRow → BundleStatus → List ApprovalRow → List ApprovalRow
logged e b target log =
    record {
      id = e.id;
      bundle_id = b.bundle.id;
      tenant_id = b.bundle.tenant_id;
      from_status = b.status;
      to_status = target;
      actor_id = e.actor_id;
      actor_role = e.actor_role;
      reason = e.reason;
      decided_at = e.now;
    }
    ∷ log

-- The transitions, each with the role that makes it.
pub data Move : BundleStatus → BundleStatus → ActorRole → Type 0 where
  reviewing : Move proposed reviewed reviewer
  approving : Move reviewed approved approver
  activating : Move approved active activator
  replacing : Move active superseded system

pub data Step (db : Db) : Db → Type 0 where
  -- A new bundle is proposed.
  add :
      (bundle : PolicyBundle)
      → find_bundle bundle.id db.bundles ≡ none
      → Step db (record db { bundles = record { bundle = bundle; status = proposed } ∷ db.bundles })
  -- An author is recorded for a proposed bundle.
  sign_off :
      (e : Decision) (b : BundleRow)
      → find_bundle b.bundle.id db.bundles ≡ some b
      → b.status ≡ proposed
      → e.actor_role ≡ author
      → Step db (record db { approvals = logged e b proposed db.approvals })
  -- A bundle moves forward by one transition, by an actor who may make it.
  move :
      (e : Decision) (actor : ℕ) (target : BundleStatus) (b : BundleRow)
      → find_bundle b.bundle.id db.bundles ≡ some b
      → Move b.status target e.actor_role
      → e.actor_id ≡ some actor
      → filled (forbidden target) b.bundle.id actor db.approvals ≡ false
      → Step db (record db {
        bundles = set_status b.bundle.id target db.bundles;
        approvals = logged e b target db.approvals;
      })

pub data Steps (db : Db) : Db → Type 0 where
  here : Steps db db
  next : {db' db'' : Db} → Steps db db' → Step db' db'' → Steps db db''
