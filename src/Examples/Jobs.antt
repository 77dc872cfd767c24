-- ===== src/Examples/Jobs.antt =====
-- packages/ledger/ma_export_job_repository.py at concrete inputs: a job that runs, ends and is left alone.
use forensa.Prelude.{◌≡◌, refl, none, some, List, [], ◌∷◌, All}
use forensa.Jobs
use forensa.Jobs.Lifecycle.{IsSound}
use forensa.Jobs.Calls.{job_calls-IsSound, job_calls-ended}
use forensa.Examples.Data.{payload}
use forensa.Jobs.{
  find_job, get_ma_export_job_by_id, update_job, create_ma_export_job, load_job, text_take,
  mark_ma_export_job_pending_to_running, mark_ma_export_job_running_to_completed,
  mark_ma_export_job_failed, job_call, job_calls,
}

abbrev pub request : Jobs.JobRequest
request = record {
  tenant_id = 1;
  scope_start = 10;
  scope_end = 20;
  encrypt_for_pubkey_b64 = none;
  platform_sign_key_id = none;
  requested_by_agent_id = none;
  requested_at = 21;
}

-- The second completion and the failure after it are refused.
abbrev calls : List Jobs.JobCall
calls =
    Jobs.create 7 request
    ∷ Jobs.complete 7 payload 22
    ∷ Jobs.start 7 23
    ∷ Jobs.complete 7 payload 24
    ∷ Jobs.fail 7 "too late" 25
    ∷ []

job_calls-IsSound_example : All IsSound (job_calls calls [])
job_calls-IsSound_example = job_calls-IsSound calls

abbrev done : Jobs.JobRow
done = Jobs.finished payload 24 (Jobs.started 23 (Jobs.new_job 7 request))

ends : job_calls calls [] ≡ done ∷ []
unfolding find_job get_ma_export_job_by_id update_job create_ma_export_job load_job text_take
    mark_ma_export_job_pending_to_running mark_ma_export_job_running_to_completed
    mark_ma_export_job_failed job_call job_calls
ends = refl

held : find_job 7 (done ∷ []) ≡ some done
unfolding find_job get_ma_export_job_by_id update_job create_ma_export_job load_job text_take
    mark_ma_export_job_pending_to_running mark_ma_export_job_running_to_completed
    mark_ma_export_job_failed job_call job_calls
held = refl

abbrev late_calls : List Jobs.JobCall
late_calls = Jobs.fail 7 "late" 30 ∷ Jobs.start 7 31 ∷ Jobs.create 8 request ∷ []

job_calls-ended_example : find_job 7 (job_calls late_calls (done ∷ [])) ≡ some done
job_calls-ended_example = job_calls-ended late_calls (done ∷ []) 7 done held refl
