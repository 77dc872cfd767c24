-- ===== src/Ledger.antt =====
-- packages/ledger/models.py and session.py: the tables, and a session's transaction on them.
-- A table is the list of its rows, the newest first. A UUID is a number; a time is a number of
-- microseconds. The tables of tenants and agents, column widths and the freshness of `uuid4()` are
-- not modelled; the keys and the unique indexes that the code relies on are checked where it writes.
pub mod Exec
pub mod Returns
use forensa.Prelude.{ℕ, String, Option, List, []}
use forensa.Hash.{Value}

pub data BundleStatus : Type 0 where
  proposed reviewed approved active superseded : BundleStatus

pub data ActorRole : Type 0 where
  author reviewer approver activator system : ActorRole

pub record PolicyBundle : Type 0 where
  pub id : ℕ
  pub tenant_id : ℕ
  pub version : String
  pub content_hash : String
  pub content : Value
  pub created_at : ℕ

pub record BundleRow : Type 0 where
  pub bundle : PolicyBundle
  pub status : BundleStatus

pub record ApprovalRow : Type 0 where
  pub id : ℕ
  pub bundle_id : ℕ
  pub tenant_id : ℕ
  pub from_status : BundleStatus
  pub to_status : BundleStatus
  pub actor_id : Option ℕ
  pub actor_role : ActorRole
  pub reason : String
  pub decided_at : ℕ

pub record PolicySnapshot : Type 0 where
  pub policy_bundle_id : ℕ
  pub policy_bundle_version : String
  pub content_hash : String
  pub captured_at : ℕ
  pub verdict_decision : String
  pub verdict_reason : String

pub record SnapshotRow : Type 0 where
  pub id : ℕ
  pub tenant_id : ℕ
  pub snapshot : PolicySnapshot

pub record Event : Type 0 where
  pub id : ℕ
  pub tenant_id : ℕ
  pub agent_id : ℕ
  pub trace_id : String
  pub span_id : String
  pub parent_span_id : Option String
  pub kind : String
  pub occurred_at : ℕ
  pub payload : Value
  pub reasoning : Option String
  pub output : Option String
  pub policy_version : Option String
  pub policy_verdict : Option String

pub record Receipt : Type 0 where
  pub id : ℕ
  pub tenant_id : ℕ
  pub event_id : ℕ
  pub policy_bundle_id : ℕ
  pub sequence : ℕ
  pub prev_receipt_hash : Option String
  pub payload_hash : String
  pub receipt_hash : String
  pub signature : List ℕ
  pub agent_signature : Option (List ℕ)
  pub signed_at : ℕ

pub record ReceiptRow : Type 0 where
  pub receipt : Receipt
  pub policy_snapshot_id : ℕ

pub record Db : Type 0 where
  pub bundles : List BundleRow
  pub approvals : List ApprovalRow
  pub snapshots : List SnapshotRow
  pub events : List Event
  pub receipts : List ReceiptRow

abbrev pub empty_db : Db
empty_db = record { bundles = []; approvals = []; snapshots = []; events = []; receipts = [] }
