-- ===== src/Workflow.antt =====
-- packages/ledger/bundle_workflow.py: the approval workflow of policy bundles. `uuid4()` and
-- `datetime.now(UTC)` are the arguments `id` and `now`.
pub mod Keys
pub mod Steps
pub mod Moves
pub mod Refines
pub mod Activation
pub mod Replacement
pub mod Requests
pub mod Roles
pub mod Segregation
use Prim.Native.String.{◌++◌}
use forensa.Prelude.{
  ℕ, String, Bool, true, false, not, ◌&&◌, ◌||◌, Option, none, some, List, [], ◌∷◌, map, ltb,
  if◌then◌else◌, ◌==◌, ◌!=◌, nat_eq, option_eq, Eq, filter, is_blank, uuid_str, workflow_error,
  bundle_not_found, segregation_error, multiple_results, ◌≡◌, ◌↔◌, arith,
}
use forensa.Ledger.{
  Db, BundleRow, ApprovalRow, BundleStatus, proposed, reviewed, approved, active, superseded,
  ActorRole, author, reviewer, approver, activator, system,
}
use forensa.Ledger.Exec.{Exec, pure, raise, gets, nested, modify, raise_if, flush, ◌>>=◌, ◌>>◌}

abbrev pub status_beq : BundleStatus → BundleStatus → Bool
status_beq proposed proposed = true
status_beq reviewed reviewed = true
status_beq approved approved = true
status_beq active active = true
status_beq superseded superseded = true
status_beq _ _ = false

abbrev pub role_beq : ActorRole → ActorRole → Bool
role_beq author author = true
role_beq reviewer reviewer = true
role_beq approver approver = true
role_beq activator activator = true
role_beq system system = true
role_beq _ _ = false

-- `_VALID_TRANSITIONS`
unfoldable pub valid_transition : BundleStatus → BundleStatus → Bool
valid_transition proposed reviewed = true
valid_transition reviewed approved = true
valid_transition approved active = true
valid_transition active superseded = true
valid_transition _ _ = false

-- `_REQUIRED_ROLE`; the code never asks for the role of `proposed`.
unfoldable pub required_role : BundleStatus → ActorRole
required_role proposed = author
required_role reviewed = reviewer
required_role approved = approver
required_role active = activator
required_role superseded = system

unfoldable pub find_bundle : ℕ → List BundleRow → Option BundleRow
find_bundle id [] = none
find_bundle id (b ∷ bs) = if b.bundle.id == id then some b else find_bundle id bs

-- `bundle.status = status` on the row with this key.
unfoldable pub set_status : ℕ → BundleStatus → List BundleRow → List BundleRow
set_status id status [] = []
set_status id status (b ∷ bs) =
    (if b.bundle.id == id then record b { status = status } else b) ∷ set_status id status bs

unfoldable pub active_bundles : ℕ → List BundleRow → List BundleRow
active_bundles tenant =
    filter (λ (b : BundleRow). b.bundle.tenant_id == tenant && status_beq b.status active)

-- `uq_policy_bundles_one_active_per_tenant`, when the row `id` of `tenant` is to be written as active.
unfoldable pub no_other_active : ℕ → ℕ → List BundleRow → Bool
no_other_active id tenant [] = true
no_other_active id tenant (b ∷ bs) =
    (b.bundle.id == id || not (b.bundle.tenant_id == tenant && status_beq b.status active))
    && no_other_active id tenant bs

from_option : Option BundleRow → Exec BundleRow
from_option none = raise bundle_not_found
from_option (some b) = pure b

unfoldable pub load_bundle : ℕ → Exec BundleRow
unfolding from_option
load_bundle bundle_id = do row ← gets (λ db. find_bundle bundle_id db.bundles); from_option row

unfoldable pub write_approval :
    ℕ → ℕ → BundleRow → BundleStatus → BundleStatus → Option ℕ → ActorRole → String → Exec ℕ
write_approval id now b from_status to_status actor role reason = do
  modify (λ db. record db {
    approvals =
        record {
          id = id;
          bundle_id = b.bundle.id;
          tenant_id = b.bundle.tenant_id;
          from_status = from_status;
          to_status = to_status;
          actor_id = actor;
          actor_role = role;
          reason = reason;
          decided_at = now;
        }
        ∷ db.approvals;
  })
  pure id

abbrev pub among : List ActorRole → ActorRole → Bool
among [] q = false
among (p ∷ ps) q = role_beq q p || among ps q

-- Whether the actor has a row of the log for the bundle in one of the roles.
unfoldable pub filled : List ActorRole → ℕ → ℕ → List ApprovalRow → Bool
filled roles bundle_id actor [] = false
filled roles bundle_id actor (r ∷ rs) =
    (r.bundle_id == bundle_id && among roles r.actor_role && r.actor_id == some actor)
    || filled roles bundle_id actor rs

unfoldable pub enforce_segregation : ℕ → ℕ → List ActorRole → Exec (Unit {0})
enforce_segregation bundle_id new_actor forbidden = do
  clash ← gets (λ db. filled forbidden bundle_id new_actor db.approvals)
  raise_if clash segregation_error

-- `bundle.status = target_status; await session.flush()`
unfoldable pub flush_status : BundleRow → BundleStatus → Exec (Unit {0})
flush_status b target =
    flush
      (λ db.
        not (status_beq target active) || no_other_active b.bundle.id b.bundle.tenant_id db.bundles)
      (λ db. record db { bundles = set_status b.bundle.id target db.bundles })

unfoldable pub transition : ℕ → ℕ → ℕ → BundleStatus → ℕ → String → Exec ℕ
unfolding load_bundle write_approval flush_status
transition id now bundle_id target actor reason = do
  raise_if (is_blank reason) workflow_error
  b ← load_bundle bundle_id
  raise_if (not (valid_transition b.status target)) workflow_error
  approval ← write_approval id now b b.status target (some actor) (required_role target) reason
  flush_status b target
  pure approval

unfoldable pub propose : ℕ → ℕ → ℕ → Option ℕ → String → Exec ℕ
unfolding load_bundle write_approval
propose id now bundle_id author_actor reason = do
  b ← load_bundle bundle_id
  raise_if (not (status_beq b.status proposed)) workflow_error
  write_approval id now b proposed proposed author_actor author reason

unfoldable pub review : ℕ → ℕ → ℕ → ℕ → String → Exec ℕ
unfolding enforce_segregation
review id now bundle_id actor reason = do
  enforce_segregation bundle_id actor (author ∷ [])
  transition id now bundle_id reviewed actor reason

unfoldable pub approve : ℕ → ℕ → ℕ → ℕ → String → Exec ℕ
unfolding enforce_segregation
approve id now bundle_id actor reason = do
  enforce_segregation bundle_id actor (author ∷ reviewer ∷ [])
  transition id now bundle_id approved actor reason

-- `scalar_one_or_none`
abbrev pub one_or_none {ℓ} : {A : Type ℓ} → List A → Exec (Option A)
one_or_none [] = pure none
one_or_none (a ∷ []) = pure (some a)
one_or_none (a ∷ b ∷ rest) = raise multiple_results

unfoldable pub supersede_reason : ℕ → String
supersede_reason bundle_id =
    "automatically superseded by activation of bundle " ++ uuid_str bundle_id

unfoldable pub supersede_prior : ℕ → ℕ → ℕ → ℕ → Option BundleRow → Exec (Unit {0})
unfolding write_approval flush_status
supersede_prior id now bundle_id actor none = pure tt
supersede_prior id now bundle_id actor (some prior) = do
  write_approval id now prior active superseded (some actor) system (supersede_reason bundle_id)
  flush_status prior superseded

-- The body of the savepoint. `prior_id` and `prior_now` are drawn for the bundle that is replaced.
unfoldable pub replace_active : ℕ → ℕ → ℕ → ℕ → ℕ → ℕ → String → BundleRow → Exec ℕ
replace_active prior_id prior_now id now bundle_id actor reason b = do
  matching ← gets (λ db. active_bundles b.bundle.tenant_id db.bundles)
  prior_active ← one_or_none matching
  supersede_prior prior_id prior_now bundle_id actor prior_active
  transition id now bundle_id active actor reason

unfoldable pub activate : ℕ → ℕ → ℕ → ℕ → ℕ → ℕ → String → Exec ℕ
unfolding load_bundle
activate prior_id prior_now id now bundle_id actor reason = do
  b ← load_bundle bundle_id
  raise_if (not (status_beq b.status approved)) workflow_error
  nested (replace_active prior_id prior_now id now bundle_id actor reason b)

unfoldable pub supersede : ℕ → ℕ → ℕ → ℕ → String → Exec ℕ
supersede id now bundle_id actor reason = transition id now bundle_id superseded actor reason
