-- ===== src/Ingest.antt =====
-- apps/api/ingest_service.py: one event from the request to the ledger. The enforcement gateway and
-- the signing keys are what the program's abstract providers answer; a bundle provider works on the
-- database in a transaction of its own.
pub mod Persist
pub mod Chain
pub mod Bootstrap
pub mod Keeps
use forensa.Prelude.{
  ℕ, String, Bool, true, false, Option, none, some, List, [], ◌∷◌, nat_eq, string_eq, if◌then◌else◌,
  ◌==◌, ◌!=◌, Result, ok, err, ingest_service_error,
}
use forensa.Hash.{Value, dict, entry, no_entries, text}
use forensa.Ledger.{Db, PolicyBundle, PolicySnapshot, Event, Receipt}
use forensa.Ledger.Exec.{Exec, pure, raise_if, lift, session_scope, ◌>>=◌, ◌>>◌}
use forensa.Policy.{PolicyVerdict, capture_snapshot, build_bundle, BundleFields, default_content}
use forensa.Sign.{Ed25519}
use forensa.Receipts.{build_receipt, recompute_receipt_hash}
use forensa.Repositories.{get_latest_receipt_for_tenant, write_event_with_receipt}
use forensa.Bundles.{get_active_bundle_for_tenant, write_bundle}
use forensa.Workflow

-- The providers that an ingest is given. `evaluate` takes the time of the call.
pub record Services : Type 0 where
  pub get_active_bundle : ℕ → Exec PolicyBundle
  pub evaluate : ℕ → ℕ → Value → Result PolicyVerdict
  pub get_signing_key : ℕ → List ℕ
  pub get_agent_signing_key : Option (ℕ → List ℕ)

-- The ids and times that one ingest draws.
pub record Draws : Type 0 where
  pub evaluated_at : ℕ
  pub captured_at : ℕ
  pub snapshot_id : ℕ
  pub receipt_id : ℕ
  pub signed_at : ℕ

pub record IngestResult : Type 0 where
  pub event_id : ℕ
  pub receipt_id : ℕ
  pub policy_snapshot_id : ℕ
  pub receipt_hash : String
  pub integrity_ok : Bool

action_of : Event → Value
action_of e = dict (entry "kind" (text e.kind) (entry "payload" e.payload no_entries))

-- Any exception of the gateway is an `IngestServiceError`.
abbrev caught {ℓ} : {A : Type ℓ} → Result A → Result A
caught (ok a) = ok a
caught (err e) = err ingest_service_error

abbrev pub agent_key : Option (ℕ → List ℕ) → ℕ → Option (List ℕ)
agent_key none agent = none
agent_key (some get) agent = some (get agent)

abbrev pub result_of : Draws → Event → Receipt → String → IngestResult
result_of draws event receipt recomputed = record {
  event_id = event.id;
  receipt_id = receipt.id;
  policy_snapshot_id = draws.snapshot_id;
  receipt_hash = receipt.receipt_hash;
  integrity_ok = recomputed == receipt.receipt_hash;
}

module _ (sha256 : List ℕ → String) (e : Ed25519) (services : Services) where
  -- Step 2.
  unfoldable pub judge : Draws → Event → PolicyBundle → Exec PolicySnapshot
  unfolding action_of
  judge draws event bundle = do
    verdict ← lift (caught (services.evaluate draws.evaluated_at event.tenant_id (action_of event)))
    raise_if (verdict.policy_bundle_id != bundle.id) ingest_service_error
    lift (capture_snapshot sha256 draws.captured_at bundle verdict)

  unfoldable pub build_next : Draws → Event → PolicySnapshot → Option Receipt → Result Receipt
  build_next draws event snapshot prev =
      build_receipt sha256 e draws.receipt_id draws.signed_at event.tenant_id event.id event.payload
        snapshot draws.snapshot_id prev (services.get_signing_key event.tenant_id)
        (agent_key services.get_agent_signing_key event.agent_id)

  -- Steps 6 and 7.
  unfoldable pub record_receipt : Draws → Event → PolicySnapshot → Receipt → Exec IngestResult
  record_receipt draws event snapshot receipt = do
    real_snapshot_id ← write_event_with_receipt event snapshot receipt draws.snapshot_id
    raise_if (real_snapshot_id != draws.snapshot_id) ingest_service_error
    recomputed ← lift (recompute_receipt_hash sha256 receipt draws.snapshot_id)
    pure (result_of draws event receipt recomputed)

  -- Steps 4 to 7.
  unfoldable pub persist : Draws → Event → PolicySnapshot → Exec IngestResult
  persist draws event snapshot = do
    prev_receipt ← get_latest_receipt_for_tenant event.tenant_id
    receipt ← lift (build_next draws event snapshot prev_receipt)
    record_receipt draws event snapshot receipt

  -- `ingest_event` in the session of the request, which commits if it returns and rolls back if it
  -- raises.
  unfoldable pub ingest_event : Draws → Event → Exec IngestResult
  ingest_event draws event = do
    bundle ← services.get_active_bundle event.tenant_id
    session_scope (judge draws event bundle >>= persist draws event)

-- Requests one after another, each with the providers that it is given, whatever each answers.
module _ (sha256 : List ℕ → String) (e : Ed25519) where
  unfoldable pub ingest_all : List (Services × Draws × Event) → Db → Db
  ingest_all [] db = db
  ingest_all ((services, draws, event) ∷ rest) db =
      ingest_all rest (ingest_event sha256 e services draws event db).1
