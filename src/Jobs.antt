-- ===== src/Jobs.antt =====
-- packages/ledger/ma_export_job_repository.py: the jobs that export a tenant's evidence. The table is
-- the list of its rows, the newest first. A datetime is aware. The calls raise before they change a
-- row, so a call is a result: the table it leaves, or the exception.
pub mod Lifecycle
pub mod Calls
use forensa.Prelude.{
  ℕ, zero, suc, String, Bool, true, false, not, ◌&&◌, ◌||◌, Option, none, some, List, [], ◌∷◌, take,
  drop, filter, sort_desc, ltb, if◌then◌else◌, ◌==◌, nat_eq, Result, ok, err, ◌>>=◌, ◌>>◌, require,
  job_state_error, integrity_error,
}
use forensa.Hash.{Value}

pub data JobStatus : Type 0 where
  pending running completed failed : JobStatus

pub record JobRow : Type 0 where
  pub id : ℕ
  pub tenant_id : ℕ
  pub requested_by_agent_id : Option ℕ
  pub status : JobStatus
  pub scope_start : ℕ
  pub scope_end : ℕ
  pub encrypt_for_pubkey_b64 : Option String
  pub platform_sign_key_id : Option String
  pub requested_at : ℕ
  pub started_at : Option ℕ
  pub completed_at : Option ℕ
  pub result_export : Option Value
  pub result_error : Option String

-- What a job is created with.
pub record JobRequest : Type 0 where
  pub tenant_id : ℕ
  pub scope_start : ℕ
  pub scope_end : ℕ
  pub encrypt_for_pubkey_b64 : Option String
  pub platform_sign_key_id : Option String
  pub requested_by_agent_id : Option ℕ
  pub requested_at : ℕ

abbrev pub is_pending : JobStatus → Bool
is_pending pending = true
is_pending _ = false

abbrev pub is_running : JobStatus → Bool
is_running running = true
is_running _ = false

-- `JOB_TERMINAL_STATUSES`
abbrev pub is_terminal : JobStatus → Bool
is_terminal completed = true
is_terminal failed = true
is_terminal _ = false

unfoldable pub find_job : ℕ → List JobRow → Option JobRow
find_job id [] = none
find_job id (r ∷ rs) = if r.id == id then some r else find_job id rs

abbrev in_scope : Option ℕ → JobRow → Bool
in_scope none r = true
in_scope (some t) r = r.tenant_id == t

abbrev first_job : List JobRow → Option JobRow
first_job [] = none
first_job (r ∷ rs) = some r

unfoldable pub get_ma_export_job_by_id : ℕ → Option ℕ → List JobRow → Option JobRow
get_ma_export_job_by_id id tenant rows =
    first_job (take 1 (filter (λ (r : JobRow). r.id == id && in_scope tenant r) rows))

unfoldable pub list_ma_export_jobs_for_tenant : ℕ → ℕ → ℕ → List JobRow → List JobRow
list_ma_export_jobs_for_tenant tenant limit offset rows = take limit (
    drop offset (
      sort_desc (λ (r : JobRow). r.requested_at)
        (filter (λ (r : JobRow). r.tenant_id == tenant) rows)))

-- The row with this key as it is flushed.
unfoldable pub update_job : ℕ → (JobRow → JobRow) → List JobRow → List JobRow
update_job id change [] = []
update_job id change (r ∷ rs) =
    let rest = update_job id change rs in if r.id == id then change r ∷ rs else r ∷ rest

abbrev pub new_job : ℕ → JobRequest → JobRow
new_job id q = record {
  id = id;
  tenant_id = q.tenant_id;
  requested_by_agent_id = q.requested_by_agent_id;
  status = pending;
  scope_start = q.scope_start;
  scope_end = q.scope_end;
  encrypt_for_pubkey_b64 = q.encrypt_for_pubkey_b64;
  platform_sign_key_id = q.platform_sign_key_id;
  requested_at = q.requested_at;
  started_at = none;
  completed_at = none;
  result_export = none;
  result_error = none;
}

is_free : Option JobRow → Bool
is_free none = true
is_free (some r) = false

-- With the id that it draws.
unfoldable pub create_ma_export_job : ℕ → JobRequest → List JobRow → Result (List JobRow)
unfolding is_free
create_ma_export_job id q rows = do
  require (not (ltb q.scope_end q.scope_start)) job_state_error
  require (is_free (find_job id rows)) integrity_error
  ok (new_job id q ∷ rows)

unfoldable pub load_job : ℕ → List JobRow → Result JobRow
load_job id rows = elim (get_ma_export_job_by_id id none rows) [
  | none ↦ err job_state_error
  | some r ↦ ok r
]

abbrev pub started : ℕ → JobRow → JobRow
started now r = record r { status = running; started_at = some now }

abbrev pub finished : Value → ℕ → JobRow → JobRow
finished result now r = record r {
  status = completed;
  result_export = some result;
  completed_at = some now;
}

-- `error_message[:n]`
unfoldable pub text_take : ℕ → String → String
text_take zero s = ""
text_take (suc n) String.[] = ""
text_take (suc n) (String.◌∷◌ c s) = String.◌∷◌ c (text_take n s)

abbrev pub broken : String → ℕ → JobRow → JobRow
broken message now r = record r {
  status = failed;
  result_error = some (text_take 2048 message);
  completed_at = some now;
}

unfoldable pub mark_ma_export_job_pending_to_running : ℕ → ℕ → List JobRow → Result (List JobRow)
mark_ma_export_job_pending_to_running id now rows = do
  row ← load_job id rows
  require (is_pending row.status) job_state_error
  ok (update_job id (started now) rows)

unfoldable pub mark_ma_export_job_running_to_completed :
    ℕ → Value → ℕ → List JobRow → Result (List JobRow)
mark_ma_export_job_running_to_completed id result now rows = do
  row ← load_job id rows
  require (not (is_terminal row.status)) job_state_error
  require (is_running row.status) job_state_error
  ok (update_job id (finished result now) rows)

unfoldable pub mark_ma_export_job_failed : ℕ → String → ℕ → List JobRow → Result (List JobRow)
mark_ma_export_job_failed id message now rows = do
  row ← load_job id rows
  require (not (is_terminal row.status)) job_state_error
  ok (update_job id (broken message now) rows)

-- The calls that change jobs.
pub data JobCall : Type 0 where
  create : ℕ → JobRequest → JobCall
  start : ℕ → ℕ → JobCall
  complete : ℕ → Value → ℕ → JobCall
  fail : ℕ → String → ℕ → JobCall

unfoldable pub job_call : JobCall → List JobRow → Result (List JobRow)
job_call (create id q) rows = create_ma_export_job id q rows
job_call (start id now) rows = mark_ma_export_job_pending_to_running id now rows
job_call (complete id result now) rows = mark_ma_export_job_running_to_completed id result now rows
job_call (fail id message now) rows = mark_ma_export_job_failed id message now rows

-- One after another, each in a transaction that an exception rolls back.
unfoldable pub job_calls : List JobCall → List JobRow → List JobRow
job_calls [] rows = rows
job_calls (c ∷ cs) rows = elim (job_call c rows) [
  | ok rows' ↦ job_calls cs rows'
  | err x ↦ job_calls cs rows
]
