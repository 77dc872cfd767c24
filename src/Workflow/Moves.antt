-- ===== src/Workflow/Moves.antt =====
-- The tables of bundle_workflow.py against the transitions of its specification.
use forensa.Prelude.{◌≡◌, refl, true}
use forensa.Ledger.{BundleStatus, proposed, reviewed, approved, active, superseded, ActorRole}
use forensa.Workflow.{valid_transition, required_role}
use forensa.Workflow.Steps.{Move, reviewing, approving, activating, replacing}

pub Move-valid : {s t : BundleStatus} {r : ActorRole} → Move s t r → valid_transition s t ≡ true
unfolding valid_transition
Move-valid reviewing = refl
Move-valid approving = refl
Move-valid activating = refl
Move-valid replacing = refl

pub Move-role : {s t : BundleStatus} {r : ActorRole} → Move s t r → r ≡ required_role t
unfolding required_role
Move-role reviewing = refl
Move-role approving = refl
Move-role activating = refl
Move-role replacing = refl

pub valid_transition-Move :
    (s t : BundleStatus) → valid_transition s t ≡ true → Move s t (required_role t)
unfolding valid_transition required_role
valid_transition-Move proposed reviewed h = reviewing
valid_transition-Move reviewed approved h = approving
valid_transition-Move approved active h = activating
valid_transition-Move active superseded h = replacing
valid_transition-Move _ _ h = cc
