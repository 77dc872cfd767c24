-- ===== src/Runner/Ends.antt =====
-- packages/jobs/ma_export_runner.py: how a run ends.
use forensa.Prelude.{
  ℕ, String, ◌≡◌, refl, sym, ap, ◌∙◌, ◌⊎◌, inl, inr, false, Option, some, List, [], ◌∷◌, nat_eq,
  Result, ok, err, Error, ◌>>=◌, >>=-eq-ok, arith, job_state_error, ma_export_runner_error,
}
use forensa.Hash.{Value}
use forensa.Jobs
use forensa.Jobs.{JobRow, JobStatus, pending, running, completed, failed, find_job, update_job}
use forensa.Jobs.Lifecycle.{get_ma_export_job_by_id-find_job}
use forensa.Diligence.{MaDiligenceExport}
use forensa.Runner
use forensa.Runner.{World, Services, Draws}

-- The row that was changed.
update_job_self :
    (id : ℕ) (change : JobRow → JobRow) (rows : List JobRow) (r : JobRow)
    → ((q : JobRow) → (change q).id ≡ q.id)
    → find_job id rows ≡ some r
    → find_job id (update_job id change rows) ≡ some (change r)
unfolding find_job update_job
update_job_self id change [] r keeps h = cc h
update_job_self id change (q ∷ rows) r keeps h =
    ground (arith, h, keeps q, update_job_self id change rows r keeps)

module _ (id : ℕ) (rows : List JobRow) (r : JobRow) (found : find_job id rows ≡ some r) where
  load : Jobs.load_job id rows ≡ ok r
  unfolding Jobs.load_job
  load = rw (get_ma_export_job_by_id-find_job id rows ∙ found, Jobs.load_job)

  starts :
      (now : ℕ)
      → r.status ≡ pending
      → Jobs.mark_ma_export_job_pending_to_running id now rows
        ≡ ok (update_job id (Jobs.started now) rows)
  unfolding Jobs.mark_ma_export_job_pending_to_running
  starts now h = rw (load, h)

  refuses :
      (now : ℕ)
      → Jobs.is_pending r.status ≡ false
      → Jobs.mark_ma_export_job_pending_to_running id now rows ≡ err job_state_error
  unfolding Jobs.mark_ma_export_job_pending_to_running
  refuses now h = rw (load, h)

  fails :
      (message : String) (now : ℕ)
      → r.status ≡ running
      → Jobs.mark_ma_export_job_failed id message now rows
        ≡ ok (update_job id (Jobs.broken message now) rows)
  unfolding Jobs.mark_ma_export_job_failed
  fails message now h = rw (load, h)

  completes :
      (result : Value) (now : ℕ) (rows' : List JobRow)
      → Jobs.mark_ma_export_job_running_to_completed id result now rows ≡ ok rows'
      → rows' ≡ update_job id (Jobs.finished result now) rows
  unfolding Jobs.mark_ma_export_job_running_to_completed
  completes result now rows' h = ground (arith, h, load)

-- Whether the job is over, with its result or with a message, in the world that a run leaves.
pub record HasEnded (s : Services) (id : ℕ) (w : World) : Type 0 where
  pub row : JobRow
  pub found : find_job id w.jobs ≡ some row
  pub over :
      ((row.status ≡ completed) × ((result : Value) × (row.result_export ≡ some result)))
      ⊎ ((row.status ≡ failed)
          × ((x : Error) × (row.result_error ≡ some (Jobs.text_take 2048 (s.describe x)))))

module _ (s : Services) (d : Draws) (id : ℕ) (key : Option (List ℕ)) where
  work_stage-ends :
      (w : World) (r : JobRow) (rows' : List JobRow)
      → find_job id w.jobs ≡ some r
      → Runner.work_stage s d id key w ≡ ok rows'
      → HasEnded s id (record w { jobs = rows' })
  unfolding Runner.work_stage Runner.work_on
  work_stage-ends w r rows' f h =
      let here : Runner.work_on s d id key w (some r) ≡ ok rows' =
        ap (Runner.work_on s d id key w) (sym (get_ma_export_job_by_id-find_job id w.jobs ∙ f))
        ∙ h in
      let finish : Value → Result (List JobRow) =
        λ payload. Jobs.mark_ma_export_job_running_to_completed id payload d.completed_at w.jobs in
      let serialise : MaDiligenceExport → Result (List JobRow) =
        λ x. Runner.serialise_result s d r.encrypt_for_pubkey_b64 x >>= finish in
      let signing : MaDiligenceExport → Result (List JobRow) =
        λ x. Runner.sign_if_asked s d r.platform_sign_key_id key x >>= serialise in
      let (built, _, e1) =
        >>=-eq-ok (Runner.build_export s d r.tenant_id r.scope_start r.scope_end w) signing here in
      let (signed, _, e2) =
        >>=-eq-ok (Runner.sign_if_asked s d r.platform_sign_key_id key built) serialise e1 in
      let (payload, _, e3) =
        >>=-eq-ok (Runner.serialise_result s d r.encrypt_for_pubkey_b64 signed) finish e2 in
      record {
        row = Jobs.finished payload d.completed_at r;
        found =
            ap (find_job id) (completes id w.jobs r f payload d.completed_at rows' e3)
            ∙ update_job_self id (Jobs.finished payload d.completed_at) w.jobs r (λ q. refl) f;
        over = inl (refl, (payload, refl));
      }

  fail_stage-ends :
      (x : Error) (w : World) (r : JobRow)
      → find_job id w.jobs ≡ some r
      → r.status ≡ running
      → (w' : World) × (Runner.fail_stage s d id x w ≡ (ok tt, w')) × HasEnded s id w'
  unfolding Runner.fail_stage
  fail_stage-ends x w r f h =
      let change = Jobs.broken (s.describe x) d.failed_at in
      (
        record w { jobs = update_job id change w.jobs },
        rw (fails id w.jobs r f (s.describe x) d.failed_at h, Runner.fail_stage),
        record {
          row = change r;
          found = update_job_self id change w.jobs r (λ q. refl) f;
          over = inr (refl, (x, refl));
        },
      )

  after_lock-ends :
      (others : World → World) (w : World) (r : JobRow)
      → ((v : World) → find_job id (others v).jobs ≡ find_job id v.jobs)
      → find_job id w.jobs ≡ some r
      → r.status ≡ running
      → (w' : World) × (Runner.after_lock s d others id key w ≡ (ok tt, w')) × HasEnded s id w'
  unfolding Runner.after_lock
  after_lock-ends others w r keeps f h = of_work (Runner.work_stage s d id key w) refl
    where
      of_work :
          (o : Result (List JobRow))
          → Runner.work_stage s d id key w ≡ o
          → (w' : World) × (elim o as (λ _. Result (Unit {0}) × World) [
            | ok jobs ↦ (ok tt, record w { jobs = jobs })
            | err x ↦ Runner.fail_stage s d id x (others w)
          ]
              ≡ (ok tt, w'))
            × HasEnded s id w'
      of_work (ok rows') e = (record w { jobs = rows' }, refl, work_stage-ends w r rows' f e)
      of_work (err x) e = fail_stage-ends x (others w) r (keeps w ∙ f) h

  -- A run of a pending job, where other sessions leave the row of the job as it is between its
  -- own, returns without an exception, and leaves the job completed with a result, or failed
  -- with the text of an exception, cut to 2048 characters.
  pub run_ma_export_job-ends :
      (others others_after : World → World) (w : World) (r : JobRow)
      → ((v : World) → find_job id (others v).jobs ≡ find_job id v.jobs)
      → ((v : World) → find_job id (others_after v).jobs ≡ find_job id v.jobs)
      → find_job id w.jobs ≡ some r
      → r.status ≡ pending
      → (w' : World) × (Runner.run_ma_export_job s d others others_after id key w ≡ (ok tt, w'))
        × HasEnded s id w'
  unfolding Runner.run_ma_export_job
  run_ma_export_job-ends others others_after w r keeps keeps_after f h =
      let jobs = update_job id (Jobs.started d.started_at) w.jobs in
      let locked : World = record w { jobs = jobs } in
      let row = update_job_self id (Jobs.started d.started_at) w.jobs r (λ q. refl) f in
      let (w', e, ended) =
        after_lock-ends others_after (others locked) (Jobs.started d.started_at r) keeps_after
          (keeps locked ∙ row) refl in
      (w', rw (starts id w.jobs r f d.started_at h, Runner.run_ma_export_job) e, ended)

  -- A run of any other job.
  pub run_ma_export_job-refuses :
      (others others_after : World → World) (w : World) (r : JobRow)
      → find_job id w.jobs ≡ some r
      → Jobs.is_pending r.status ≡ false
      → Runner.run_ma_export_job s d others others_after id key w ≡ (err ma_export_runner_error, w)
  unfolding Runner.run_ma_export_job Runner.cannot_start
  run_ma_export_job-refuses others others_after w r f h =
      rw (refuses id w.jobs r f d.started_at h, Runner.run_ma_export_job)
