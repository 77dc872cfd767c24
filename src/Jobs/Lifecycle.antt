-- ===== src/Jobs/Lifecycle.antt =====
-- packages/ledger/ma_export_job_repository.py: what the rows of jobs hold, and how a call finds and writes one.
use forensa.Prelude.{
  ℕ, ◌≤◌, String, ◌≡◌, refl, subst, Bool, true, false, Option, none, some, List, [], ◌∷◌, All, ◌==◌,
  nat_eq, ok, arith, Bool-cases, inl, inr,
}
use forensa.Hash.{Value}
use forensa.Jobs
use forensa.Jobs.{JobStatus, pending, running, completed, failed, JobRow, find_job, update_job}

abbrev pub given {ℓ} : {A : Type ℓ} → Option A → Bool
given none = false
given (some a) = true

-- The columns that each status fills.
abbrev pub Fits : JobStatus → Option ℕ → Option ℕ → Option Value → Option String → Type 0
Fits pending s c x e = (given s ≡ false) × (given c ≡ false) × (given x ≡ false) × (given e ≡ false)
Fits running s c x e = (given s ≡ true) × (given c ≡ false) × (given x ≡ false) × (given e ≡ false)
Fits completed s c x e = (given s ≡ true) × (given c ≡ true) × (given x ≡ true) × (given e ≡ false)
Fits failed s c x e = (given c ≡ true) × (given x ≡ false) × (given e ≡ true)

abbrev pub IsSound : JobRow → Type 0
IsSound r =
    (r.scope_start ≤ r.scope_end)
    × Fits r.status r.started_at r.completed_at r.result_export r.result_error

pub get_ma_export_job_by_id-find_job :
    (id : ℕ) (rows : List JobRow) → Jobs.get_ma_export_job_by_id id none rows ≡ find_job id rows
unfolding Jobs.get_ma_export_job_by_id find_job
get_ma_export_job_by_id-find_job id [] = refl
get_ma_export_job_by_id-find_job id (r ∷ rows) =
    ground (arith, get_ma_export_job_by_id-find_job id rows)

pub load_job-find_job :
    (id : ℕ) (rows : List JobRow) (r : JobRow)
    → Jobs.load_job id rows ≡ ok r
    → find_job id rows ≡ some r
unfolding Jobs.load_job
load_job-find_job id rows r h = ground (arith, h, get_ma_export_job_by_id-find_job id rows)

-- Another row stays the same.
pub update_job-other :
    (j id : ℕ) (change : JobRow → JobRow) (rows : List JobRow)
    → ((r : JobRow) → (change r).id ≡ r.id)
    → (j == id) ≡ false
    → find_job j (update_job id change rows) ≡ find_job j rows
unfolding find_job update_job
update_job-other j id change [] keeps other = refl
update_job-other j id change (r ∷ rows) keeps other =
    ground (arith, keeps r, update_job-other j id change rows keeps other)

pub find_job-All :
    (P : JobRow → Type 0) (id : ℕ) (rows : List JobRow) (r : JobRow)
    → find_job id rows ≡ some r
    → All P rows
    → P r
unfolding find_job
find_job-All P id [] r h a = cc h
find_job-All P id (q ∷ rows) r h a = elim (Bool-cases (q.id == id)) [
  | inl y ↦ subst P (ground (arith, h, y)) a.0
  | inr n ↦ find_job-All P id rows r (ground (arith, h, n)) a.1
]

pub update_job-All :
    (P : JobRow → Type 0) (id : ℕ) (change : JobRow → JobRow) (rows : List JobRow)
    → ((r : JobRow) → find_job id rows ≡ some r → P (change r))
    → All P rows
    → All P (update_job id change rows)
unfolding find_job update_job
update_job-All P id change [] h a = tt
update_job-All P id change (q ∷ rows) h a = elim (Bool-cases (q.id == id)) [
  | inl y ↦ subst (All P) {x = change q ∷ rows} (ground (arith, y)) (h q (ground (arith, y)), a.1)
  | inr n ↦
      subst (All P) {x = q ∷ update_job id change rows} (ground (arith, n))
        (a.0, update_job-All P id change rows (λ r f. h r (ground (arith, n, f))) a.1)
]

pub started-IsSound :
    (now : ℕ) (r : JobRow) → r.status ≡ pending → IsSound r → IsSound (Jobs.started now r)
started-IsSound now r e s =
    let f = subst (λ t. Fits t r.started_at r.completed_at r.result_export r.result_error) e s.1 in
    (s.0, (refl, f.1, f.2, f.3))

pub finished-IsSound :
    (x : Value) (now : ℕ) (r : JobRow)
    → r.status ≡ running
    → IsSound r
    → IsSound (Jobs.finished x now r)
finished-IsSound x now r e s =
    let f = subst (λ t. Fits t r.started_at r.completed_at r.result_export r.result_error) e s.1 in
    (s.0, (f.0, refl, refl, f.3))

no_export :
    (t : JobStatus) (s c : Option ℕ) (x : Option Value) (e : Option String)
    → Jobs.is_terminal t ≡ false
    → Fits t s c x e
    → given x ≡ false
no_export pending s c x e h f = f.2
no_export running s c x e h f = f.2
no_export completed s c x e h f = cc h
no_export failed s c x e h f = f.1

pub broken-IsSound :
    (m : String) (now : ℕ) (r : JobRow)
    → Jobs.is_terminal r.status ≡ false
    → IsSound r
    → IsSound (Jobs.broken m now r)
broken-IsSound m now r e s = (
  s.0,
  (refl, no_export r.status r.started_at r.completed_at r.result_export r.result_error e s.1, refl),
)
