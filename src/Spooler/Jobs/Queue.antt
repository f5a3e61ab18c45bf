-- ===== src/Spooler/Jobs/Queue.antt =====
-- Jobs are found under the number that `add_job` gives them.
use cse.Base.{ℕ, ◌+◌, ◌<◌, ◌≡◌, refl, false, some, List, [], ◌∷◌, ◌++◌, ◌==◌, arith, All, ==_refl}
use cse.Spooler.Jobs.{Job, Jobs, add_job, search_jobid}

-- Every job of the list has a number that was already given.
abbrev pub IsFresh : Jobs → Type 0
IsFresh js = All (λ j. j.jobid < js.job_id) js.head

search_jobid-append :
    (js : List Job) (p : Job) (id : ℕ)
    → All (λ j. j.jobid < p.jobid) js
    → id < p.jobid
    → search_jobid (js ++ (p ∷ [])) id ≡ search_jobid js id
unfolding search_jobid
search_jobid-append [] p id h l = rw other refl
  where
    other : (p.jobid == id) ≡ false
    other = ground arith
search_jobid-append (j ∷ js) p id h l = rw (search_jobid-append js p id h.1 l) refl

search_jobid-new :
    (js : List Job) (p : Job)
    → All (λ j. j.jobid < p.jobid) js
    → search_jobid (js ++ (p ∷ [])) p.jobid ≡ some p
unfolding search_jobid
search_jobid-new [] p h = rw (==_refl p.jobid) refl
search_jobid-new (j ∷ js) p h = rw other (search_jobid-new js p h.1)
  where
    other : (j.jobid == p.jobid) ≡ false
    other = ground (arith, h.0)

IsFresh-append :
    (js : List Job) (p : Job) (n : ℕ)
    → All (λ j. j.jobid < n) js
    → p.jobid ≡ n
    → All (λ j. j.jobid < n + 1) (js ++ (p ∷ []))
IsFresh-append [] p n h e = (omega arith, tt)
IsFresh-append (j ∷ js) p n h e = (omega (arith, h.0), IsFresh-append js p n h.1 e)

-- In a list of jobs with given numbers, `add_job` keeps that property, the new job is found under its
-- number, and under each earlier number the search gives what it gave before.
pub add_job-search_jobid :
    (now : ℕ) (file ext : List ℕ) (set : ℕ) (js : Jobs)
    → IsFresh js
    → IsFresh (add_job now file ext set js).1
      × (search_jobid (add_job now file ext set js).1.head js.job_id
          ≡ some (add_job now file ext set js).0)
      × ((id : ℕ)
          → id < js.job_id
          → search_jobid (add_job now file ext set js).1.head id ≡ search_jobid js.head id)
unfolding add_job
add_job-search_jobid now file ext set js h = (
  IsFresh-append js.head (add_job now file ext set js).0 js.job_id h refl,
  search_jobid-new js.head (add_job now file ext set js).0 h,
  λ id l. search_jobid-append js.head (add_job now file ext set js).0 id h l,
)
