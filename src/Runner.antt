-- ===== src/Runner.antt =====
-- packages/jobs/ma_export_runner.py: running an export job, from the tables of receipts, of anchors and of jobs.
-- What the encryption and pydantic's serialisation make of a bundle are parameters, as are the base64
-- reader and the text of an exception. `others` is what other sessions do between two of the runner's.
pub mod Scope
pub mod Bundle
pub mod Ends
use Prim.Native.String.{◌++◌}
use forensa.Prelude.{
  ℕ, zero, suc, ◌+◌, ◌-◌, ◌%◌, min, max, String, Bool, true, false, not, ◌&&◌, Option, none, some,
  List, [], ◌∷◌, length, take, filter, sort_asc, leb, ltb, if◌then◌else◌, ◌==◌, nat_eq, Result, ok,
  err, Error, ◌>>=◌, ◌>>◌, require, ma_export_error, ma_export_runner_error, job_state_error,
}
use forensa.Hash.{Value}
use forensa.Ledger.{Db, Receipt}
use forensa.Sign.{Ed25519}
use forensa.Repositories
use forensa.Anchors.{AnchorRow, day_length}
use forensa.Packs.{EvidencePack, AnchorEvidence, PackInputs, from_anchor_row, build_evidence_pack}
use forensa.Diligence.{
  MaDiligenceExport, ExportInputs, build_ma_diligence_export, sign_ma_diligence_export, one_day,
  text_length,
}
use forensa.Jobs
use forensa.Jobs.{JobRow}

abbrev pub max_packs_per_bundle : ℕ
max_packs_per_bundle = 366

abbrev pub max_receipts_per_pack : ℕ
max_receipts_per_pack = 1000

-- The tables that the runner uses.
pub record World : Type 0 where
  pub db : Db
  pub anchors : List AnchorRow
  pub jobs : List JobRow

-- The code that is not the runner's.
pub record Services : Type 0 where
  pub iso : ℕ → String
  pub sha256 : List ℕ → String
  pub ed25519 : Ed25519
  pub to_json : MaDiligenceExport → Value
  pub model_dump_json : MaDiligenceExport → List ℕ
  pub urlsafe_b64decode : String → Option (List ℕ)
  pub encrypt_for_recipient : List ℕ → List ℕ → Option Value
  pub describe : Error → String

-- The ids and the times that a run draws; packs and activities by their place.
pub record Draws : Type 0 where
  pub now : ℕ
  pub export_id : ℕ
  pub pack_ids : ℕ → ℕ
  pub activity_ids : ℕ → ℕ → ℕ
  pub started_at : ℕ
  pub completed_at : ℕ
  pub failed_at : ℕ

unfoldable pub anchors_in_scope : ℕ → ℕ → ℕ → List AnchorRow → List AnchorRow
anchors_in_scope tenant scope_start scope_end rows = take (max_packs_per_bundle + 1) (
    sort_asc (λ (r : AnchorRow). r.anchor_date)
      (filter
        (λ (r : AnchorRow).
          r.tenant_id == tenant && leb scope_start r.anchor_date && leb r.anchor_date scope_end)
        rows))

abbrev pub day_start : AnchorRow → ℕ
day_start r = r.anchor_date - r.anchor_date % day_length

abbrev pub chunk_start : ℕ → AnchorRow → ℕ
chunk_start scope_start r = max (day_start r) scope_start

abbrev pub chunk_end : ℕ → AnchorRow → ℕ
chunk_end scope_end r = min (day_start r + one_day) scope_end

abbrev pub pack_inputs :
    Draws → ℕ → ℕ → ℕ → ℕ → AnchorRow → List (Receipt × ℕ) → AnchorEvidence → PackInputs
pack_inputs d n tenant scope_start scope_end row pairs evidence = record {
  tenant_id = tenant;
  generated_at = d.now;
  scope_start = chunk_start scope_start row;
  scope_end = chunk_end scope_end row;
  receipts_with_snapshots = pairs;
  anchor = some evidence;
  pack_id = d.pack_ids n;
  activity_ids = d.activity_ids n;
}

module _ (s : Services) (d : Draws) (tenant scope_start scope_end : ℕ) (db : Db) where
  -- The body of the loop: the evidence of an anchor, and the pack of its day.
  unfoldable pub pack_for : ℕ → AnchorRow → Result (AnchorEvidence × EvidencePack)
  pack_for n row = do
    evidence ← from_anchor_row row
    pairs ←
        (Repositories.list_receipts_with_snapshot_for_tenant tenant (chunk_start scope_start row)
          (chunk_end scope_end row) (max_receipts_per_pack + 1) db).0
    require (not (ltb max_receipts_per_pack (length pairs))) ma_export_error
    pack ←
        build_evidence_pack s.iso s.sha256
          (pack_inputs d n tenant scope_start scope_end row pairs evidence)
    ok (evidence, pack)

  unfoldable pub packs_for : ℕ → List AnchorRow → Result (List AnchorEvidence × List EvidencePack)
  unfolding pack_for
  packs_for n [] = ok ([], [])
  packs_for n (row ∷ rows) = do
    one ← pack_for n row
    rest ← packs_for (n + 1) rows
    ok (one.0 ∷ rest.0, one.1 ∷ rest.1)

equals_signs : ℕ → String
equals_signs zero = ""
equals_signs (suc n) = "=" ++ equals_signs n

-- `s + "=" * (-len(s) % 4)`
padded : String → String
unfolding equals_signs
padded s = s ++ equals_signs ((4 - text_length s % 4) % 4)

abbrev pub export_inputs :
    Draws → ℕ → ℕ → ℕ → List AnchorEvidence × List EvidencePack → ExportInputs
export_inputs d tenant scope_start scope_end parts = record {
  tenant_id = tenant;
  scope_start = scope_start;
  scope_end = scope_end;
  generated_at = d.now;
  evidence_packs = parts.1;
  anchor_proofs = parts.0;
  export_id = d.export_id;
}

module _ (s : Services) (d : Draws) where
  unfoldable pub build_export : ℕ → ℕ → ℕ → World → Result MaDiligenceExport
  unfolding anchors_in_scope packs_for
  build_export tenant scope_start scope_end w =
      let rows = anchors_in_scope tenant scope_start scope_end w.anchors in
      do
        require (not (ltb max_packs_per_bundle (length rows))) ma_export_error
        parts ← packs_for s d tenant scope_start scope_end w.db 0 rows
        build_ma_diligence_export s.iso s.sha256
            (export_inputs d tenant scope_start scope_end parts)

  -- Where the job names a key, and the runner has one.
  unfoldable pub sign_if_asked :
      Option String → Option (List ℕ) → MaDiligenceExport → Result MaDiligenceExport
  sign_if_asked (some key_id) (some key) x = sign_ma_diligence_export s.ed25519 x key key_id
  sign_if_asked (some key_id) none x = ok x
  sign_if_asked none key x = ok x

  encrypted : Option (List ℕ) → MaDiligenceExport → Result Value
  encrypted none x = err ma_export_error
  encrypted (some public_key) x = elim (s.encrypt_for_recipient (s.model_dump_json x) public_key) [
    | none ↦ err ma_export_error
    | some envelope ↦ ok envelope
  ]

  unfoldable pub serialise_result : Option String → MaDiligenceExport → Result Value
  unfolding encrypted padded
  serialise_result none x = ok (s.to_json x)
  serialise_result (some pubkey_b64) x = encrypted (s.urlsafe_b64decode (padded pubkey_b64)) x

  unfoldable pub work_on : ℕ → Option (List ℕ) → World → Option JobRow → Result (List JobRow)
  work_on id key w none = err ma_export_runner_error
  work_on id key w (some row) = do
    built ← build_export row.tenant_id row.scope_start row.scope_end w
    signed ← sign_if_asked row.platform_sign_key_id key built
    payload ← serialise_result row.encrypt_for_pubkey_b64 signed
    Jobs.mark_ma_export_job_running_to_completed id payload d.completed_at w.jobs

  -- Session B.
  unfoldable pub work_stage : ℕ → Option (List ℕ) → World → Result (List JobRow)
  unfolding work_on build_export sign_if_asked serialise_result
  work_stage id key w = work_on id key w (Jobs.get_ma_export_job_by_id id none w.jobs)

  -- Session C, with the exception that ended session B.
  unfoldable pub fail_stage : ℕ → Error → World → Result (Unit {0}) × World
  fail_stage id x w = elim (Jobs.mark_ma_export_job_failed id (s.describe x) d.failed_at w.jobs) [
    | ok jobs ↦ (ok tt, record w { jobs = jobs })
    | err _ ↦ (err ma_export_runner_error, w)
  ]

  -- After session A; `w` is the world that it left.
  unfoldable pub after_lock :
      (World → World) → ℕ → Option (List ℕ) → World → Result (Unit {0}) × World
  unfolding work_stage fail_stage
  after_lock others id key w = elim (work_stage id key w) [
    | ok jobs ↦ (ok tt, record w { jobs = jobs })
    | err x ↦ fail_stage id x (others w)
  ]

  unfoldable pub cannot_start : Error → Error
  cannot_start job_state_error = ma_export_runner_error
  cannot_start x = x

  unfoldable pub run_ma_export_job :
      (World → World) → (World → World) → ℕ → Option (List ℕ) → World → Result (Unit {0}) × World
  unfolding after_lock cannot_start
  run_ma_export_job others others_after id key w =
      elim (Jobs.mark_ma_export_job_pending_to_running id d.started_at w.jobs) [
        | err x ↦ (err (cannot_start x), w)
        | ok jobs ↦ after_lock others_after id key (others (record w { jobs = jobs }))
      ]
