-- ===== src/Jobs/Calls.antt =====
-- packages/ledger/ma_export_job_repository.py: sequences of calls on the table of jobs.
use forensa.Prelude.{
  ℕ, ◌≤◌, String, ◌≡◌, refl, ◌∙◌, subst, true, false, not, none, some, List, [], ◌∷◌, All, ◌==◌,
  nat_eq, Result, ok, err, require-eq-ok, >>=-eq-ok, require, ◌>>◌, arith, job_state_error,
  Bool-cases, inl, inr,
}
use forensa.Hash.{Value}
use forensa.Jobs
use forensa.Jobs.{JobStatus, pending, running, completed, failed, JobRow, find_job, update_job}
use forensa.Jobs.Lifecycle.{
  IsSound, load_job-find_job, update_job-other, find_job-All, update_job-All, started-IsSound,
  finished-IsSound, broken-IsSound,
}

-- A call that returned changed the row of its job, which had not ended, and no other; or added one.
pub data Moved (rows : List JobRow) : List JobRow → Type 0 where
  added :
      (id : ℕ) (q : Jobs.JobRequest)
      → find_job id rows ≡ none
      → q.scope_start ≤ q.scope_end
      → Moved rows (Jobs.new_job id q ∷ rows)
  changed :
      (id : ℕ) (change : JobRow → JobRow) (r : JobRow)
      → find_job id rows ≡ some r
      → Jobs.is_terminal r.status ≡ false
      → (IsSound r → IsSound (change r))
      → ((q : JobRow) → (change q).id ≡ q.id)
      → Moved rows (update_job id change rows)

create-Moved :
    (id : ℕ) (q : Jobs.JobRequest) (rows rows' : List JobRow)
    → Jobs.create_ma_export_job id q rows ≡ ok rows'
    → Moved rows rows'
unfolding Jobs.create_ma_export_job
create-Moved id q rows rows' h =
    subst (Moved rows) (ground (arith, h)) (added id q (ground (arith, h)) (ground (arith, h)))

start-Moved :
    (id now : ℕ) (rows rows' : List JobRow)
    → Jobs.mark_ma_export_job_pending_to_running id now rows ≡ ok rows'
    → Moved rows rows'
unfolding Jobs.mark_ma_export_job_pending_to_running
start-Moved id now rows rows' h =
    let next : JobRow → Result (List JobRow) = λ r.
      require (Jobs.is_pending r.status) job_state_error
      >> ok (update_job id (Jobs.started now) rows) in
    let (r, l, h1) = >>=-eq-ok (Jobs.load_job id rows) next h in
    let (t, h2) =
      require-eq-ok (Jobs.is_pending r.status) job_state_error
        (ok (update_job id (Jobs.started now) rows)) h1 in
    let is : r.status ≡ pending = ground (arith, t) in
    subst (Moved rows) (cc h2) (
      changed id (Jobs.started now) r (load_job-find_job id rows r l) (ground (arith, is))
        (started-IsSound now r is) (λ q. refl))

complete-Moved :
    (id : ℕ) (x : Value) (now : ℕ) (rows rows' : List JobRow)
    → Jobs.mark_ma_export_job_running_to_completed id x now rows ≡ ok rows'
    → Moved rows rows'
unfolding Jobs.mark_ma_export_job_running_to_completed
complete-Moved id x now rows rows' h =
    let write : Result (List JobRow) = ok (update_job id (Jobs.finished x now) rows) in
    let guarded : JobRow → Result (List JobRow) =
      λ r. require (Jobs.is_running r.status) job_state_error >> write in
    let next : JobRow → Result (List JobRow) =
      λ r. require (not (Jobs.is_terminal r.status)) job_state_error >> guarded r in
    let (r, l, h1) = >>=-eq-ok (Jobs.load_job id rows) next h in
    let (t, h2) = require-eq-ok (not (Jobs.is_terminal r.status)) job_state_error (guarded r) h1 in
    let (u, h3) = require-eq-ok (Jobs.is_running r.status) job_state_error write h2 in
    let is : r.status ≡ running = ground (arith, u) in
    subst (Moved rows) (cc h3) (
      changed id (Jobs.finished x now) r (load_job-find_job id rows r l) (ground (arith, is))
        (finished-IsSound x now r is) (λ q. refl))

fail-Moved :
    (id : ℕ) (m : String) (now : ℕ) (rows rows' : List JobRow)
    → Jobs.mark_ma_export_job_failed id m now rows ≡ ok rows'
    → Moved rows rows'
unfolding Jobs.mark_ma_export_job_failed
fail-Moved id m now rows rows' h =
    let write : Result (List JobRow) = ok (update_job id (Jobs.broken m now) rows) in
    let next : JobRow → Result (List JobRow) =
      λ r. require (not (Jobs.is_terminal r.status)) job_state_error >> write in
    let (r, l, h1) = >>=-eq-ok (Jobs.load_job id rows) next h in
    let (t, h2) = require-eq-ok (not (Jobs.is_terminal r.status)) job_state_error write h1 in
    let going : Jobs.is_terminal r.status ≡ false = ground (arith, t) in
    subst (Moved rows) (cc h2) (
      changed id (Jobs.broken m now) r (load_job-find_job id rows r l) going
        (broken-IsSound m now r going) (λ q. refl))

job_call-Moved :
    (c : Jobs.JobCall) (rows rows' : List JobRow)
    → Jobs.job_call c rows ≡ ok rows'
    → Moved rows rows'
unfolding Jobs.job_call
job_call-Moved (Jobs.create id q) rows rows' h = create-Moved id q rows rows' h
job_call-Moved (Jobs.start id now) rows rows' h = start-Moved id now rows rows' h
job_call-Moved (Jobs.complete id x now) rows rows' h = complete-Moved id x now rows rows' h
job_call-Moved (Jobs.fail id m now) rows rows' h = fail-Moved id m now rows rows' h

Moved-IsSound : (rows rows' : List JobRow) → Moved rows rows' → All IsSound rows → All IsSound rows'
Moved-IsSound rows _ (added id q free range) a = ((range, (refl, refl, refl, refl)), a)
Moved-IsSound rows _ (changed id change r found going keeps same) a =
    update_job-All IsSound id change rows
      (λ q f.
        subst (λ z. IsSound (change z)) (cc (found, f))
          (keeps (find_job-All IsSound id rows r found a)))
      a

Moved-ended :
    (rows rows' : List JobRow) (j : ℕ) (r : JobRow)
    → Moved rows rows'
    → find_job j rows ≡ some r
    → Jobs.is_terminal r.status ≡ true
    → find_job j rows' ≡ some r
unfolding find_job
Moved-ended rows _ j r (added id q free range) f t = elim (Bool-cases (id == j)) [
  | inl y ↦ cc (f, free, (nat_eq.beq_iff id j).0 y)
  | inr n ↦ ground (arith, n, f)
]
Moved-ended rows _ j r (changed id change q found going keeps same) f t =
    elim (Bool-cases (j == id)) [
      | inl y ↦
          let at : find_job id rows ≡ some r =
            subst (λ i. find_job i rows ≡ some r) ((nat_eq.beq_iff j id).0 y) f in
          ground (arith, at, found, going, t)
      | inr n ↦ update_job-other j id change rows same n ∙ f
    ]

-- The table after one call, whatever it answers.
call-keeps :
    (P : List JobRow → Type 0) (c : Jobs.JobCall) (cs : List Jobs.JobCall) (rows : List JobRow)
    → ((rows' : List JobRow) → Moved rows rows' → P (Jobs.job_calls cs rows'))
    → P (Jobs.job_calls cs rows)
    → P (Jobs.job_calls (c ∷ cs) rows)
unfolding Jobs.job_calls
call-keeps P c cs rows moved refused =
    of_result (Jobs.job_call c rows) (λ rows' e. moved rows' (job_call-Moved c rows rows' e))
  where
    of_result :
        (o : Result (List JobRow))
        → ((rows' : List JobRow) → o ≡ ok rows' → P (Jobs.job_calls cs rows'))
        → P (elim o as (λ _. List JobRow) [
          | ok rows' ↦ Jobs.job_calls cs rows'
          | err x ↦ Jobs.job_calls cs rows
        ])
    of_result (ok rows') h = h rows' refl
    of_result (err x) h = refused

job_calls_from-IsSound :
    (calls : List Jobs.JobCall) (rows : List JobRow)
    → All IsSound rows
    → All IsSound (Jobs.job_calls calls rows)
unfolding Jobs.job_calls
job_calls_from-IsSound [] rows a = a
job_calls_from-IsSound (c ∷ cs) rows a =
    call-keeps (All IsSound) c cs rows
      (λ rows' m. job_calls_from-IsSound cs rows' (Moved-IsSound rows rows' m a))
      (job_calls_from-IsSound cs rows a)

-- From an empty table, after any sequence of calls on jobs, the refused ones among them, each job
-- has a scope that does not end before it starts, and has filled just the columns of its status:
-- a start time once it runs, an end time when it has ended, an export only when completed and an
-- error only when failed.
pub job_calls-IsSound : (calls : List Jobs.JobCall) → All IsSound (Jobs.job_calls calls [])
job_calls-IsSound calls = job_calls_from-IsSound calls [] tt

-- A job that has completed or failed keeps its row, whatever calls follow, the refused ones among
-- them.
pub job_calls-ended :
    (calls : List Jobs.JobCall) (rows : List JobRow) (id : ℕ) (r : JobRow)
    → find_job id rows ≡ some r
    → Jobs.is_terminal r.status ≡ true
    → find_job id (Jobs.job_calls calls rows) ≡ some r
unfolding Jobs.job_calls
job_calls-ended [] rows id r f t = f
job_calls-ended (c ∷ cs) rows id r f t =
    call-keeps (λ (out : List JobRow). find_job id out ≡ some r) c cs rows
      (λ rows' m. job_calls-ended cs rows' id r (Moved-ended rows rows' id r m f t) t)
      (job_calls-ended cs rows id r f t)
