-- ===== src/Ingest/Bootstrap.antt =====
-- apps/api/ingest_service.py: `PostgresBundleProvider`, which proposes a default bundle for a tenant
-- that has none and walks it through the workflow.
use forensa.Prelude.{ℕ, String, Bool, true, false, Option, none, some, List}
use forensa.Hash.{Value}
use forensa.Ledger.{PolicyBundle}
use forensa.Ledger.Exec.{Exec, pure, lift, session_scope, ◌>>=◌, ◌>>◌}
use forensa.Policy.{BundleFields, build_bundle}
use forensa.Bundles.{get_active_bundle_for_tenant, write_bundle}
use forensa.Workflow
use forensa.Workflow.{status_beq}

-- The ids and times that one call draws: of the bundle, of the four actors, and of the log's rows.
pub record BootstrapDraws : Type 0 where
  pub bundle_id : ℕ
  pub created_at : ℕ
  pub author_actor : ℕ
  pub reviewer_actor : ℕ
  pub approver_actor : ℕ
  pub activator_actor : ℕ
  pub proposal_id : ℕ
  pub review_id : ℕ
  pub approval_id : ℕ
  pub prior_id : ℕ
  pub activation_id : ℕ
  pub decided_at : ℕ

abbrev pub reason : String
reason = "auto-bootstrap by PostgresBundleProvider"

unfoldable pub auto_activate : BootstrapDraws → ℕ → Exec ℕ
auto_activate d id = do
  Workflow.propose d.proposal_id d.decided_at id (some d.author_actor) reason
  Workflow.review d.review_id d.decided_at id d.reviewer_actor reason
  Workflow.approve d.approval_id d.decided_at id d.approver_actor reason
  Workflow.activate d.prior_id d.decided_at d.activation_id d.decided_at id d.activator_actor reason

-- The synthetic walk where the flag asks for it; the bundle in every case.
unfoldable pub finish : BootstrapDraws → Bool → PolicyBundle → Exec PolicyBundle
finish d false bundle = pure bundle
finish d true bundle = do auto_activate d bundle.id; pure bundle

module _ (sha256 : List ℕ → String) (schema : BundleFields) (content : Value) (auto : Bool) where
  unfoldable pub bootstrap : BootstrapDraws → ℕ → Option PolicyBundle → Exec PolicyBundle
  bootstrap d tenant (some existing) = pure existing
  bootstrap d tenant none = do
    bundle ← lift (build_bundle sha256 schema d.bundle_id d.created_at tenant "1.0.0" content)
    write_bundle bundle
    finish d auto bundle

  unfoldable pub get_active_bundle : BootstrapDraws → ℕ → Exec PolicyBundle
  get_active_bundle d tenant =
      session_scope (do existing ← get_active_bundle_for_tenant tenant; bootstrap d tenant existing)
