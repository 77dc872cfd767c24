-- ===== src/Workflow/Replacement.antt =====
-- packages/ledger/bundle_workflow.py: an activation of an approved bundle succeeds, and leaves it as
-- the one active bundle of its tenant.
use forensa.Prelude.{ℕ, All, String, ◌≡◌, some, List, [], ◌∷◌, ok, Result}
use forensa.Ledger.{Db, BundleRow, active, superseded, ApprovalRow, activator}
use forensa.Ledger.Exec.{Exec}
use forensa.Workflow.{find_bundle, active_bundles}

-- The row of an activated bundle.
abbrev activated : BundleRow → BundleRow
activated b = record b { status = active }

-- The first row of the log is of this activation.
abbrev pub IsLogged : ℕ → ℕ → ℕ → String → BundleRow → List ApprovalRow → Type 0
IsLogged id now actor reason b log =
    (rest : List ApprovalRow) × (log
      ≡ record {
        id = id;
        bundle_id = b.bundle.id;
        tenant_id = b.bundle.tenant_id;
        from_status = b.status;
        to_status = active;
        actor_id = some actor;
        actor_role = activator;
        reason = reason;
        decided_at = now;
      }
        ∷ rest)

-- Each is superseded among the rows.
abbrev pub AreSuperseded : List BundleRow → List BundleRow → Type 0
AreSuperseded before rows =
    All (λ (p : BundleRow). find_bundle p.bundle.id rows ≡ some (record p { status = superseded }))
      before

-- `b` is the one active bundle of its tenant after `o`, those that were active before are superseded,
-- and `o` returned `id`, the id of the row that it logged.
abbrev pub Activated : List BundleRow → ℕ → ℕ → ℕ → String → BundleRow → Result ℕ × Db → Type 0
Activated before id now actor reason b o =
    (o.0 ≡ ok id)
    × (active_bundles b.bundle.tenant_id o.1.bundles ≡ record b { status = active } ∷ [])
    × IsLogged id now actor reason b o.1.approvals
    × AreSuperseded before o.1.bundles
