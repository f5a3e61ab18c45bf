-- ===== src/Spooler/Jobs.antt =====
-- `Printer Spooler/src/job.c`: the list of jobs. A chosen printer is the number of a printer in the
-- list of printers; the time is an argument; the printed status lines are left out.
pub mod Queue
use cse.Base.{
  ℕ, zero, suc, ◌+◌, Bool, true, false, Option, none, some, List, [], ◌∷◌, ◌++◌, ◌==◌,
  if◌then◌else◌, map,
}
use cse.Spooler.Printers.{Printer}

pub data JobStatus : Type 0 where
  queued running paused completed aborted : JobStatus

-- `struct job`; `other_info` is never used.
pub record Job : Type 0 where
  pub jobid : ℕ
  pub status : JobStatus
  pub pgid : ℕ
  pub file_name : List ℕ
  pub file_type : List ℕ
  pub eligible_printers : ℕ
  pub chosen_printer : Option ℕ
  pub creation_time : ℕ
  pub change_time : ℕ

-- The head of the list and `job_id`.
pub record Jobs : Type 0 where
  pub head : List Job
  pub job_id : ℕ

unfoldable pub add_job : ℕ → List ℕ → List ℕ → ℕ → Jobs → Job × Jobs
add_job now file ext set js =
    let p : Job = record {
      jobid = js.job_id;
      status = JobStatus.queued;
      pgid = 0;
      file_name = file;
      file_type = ext;
      eligible_printers = set;
      chosen_printer = none;
      creation_time = now;
      change_time = now;
    } in
    (p, record { head = js.head ++ (p ∷ []); job_id = js.job_id + 1 })

unfoldable pub search_jobid : List Job → ℕ → Option Job
search_jobid [] id = none
search_jobid (j ∷ js) id = let rest = search_jobid js id in if j.jobid == id then some j else rest

-- The printer that a job keeps in a status.
unfoldable pub kept_printer : JobStatus → Option ℕ → Option ℕ
kept_printer JobStatus.queued p = none
kept_printer JobStatus.completed p = none
kept_printer JobStatus.aborted p = none
kept_printer JobStatus.running p = p
kept_printer JobStatus.paused p = p

unfoldable pub change_job_status : ℕ → Job → JobStatus → Job
change_job_status now j status = record j {
  status = status;
  chosen_printer = kept_printer status j.chosen_printer;
  change_time = now;
}

-- `busy = 0` in the printer with this number.
unfoldable pub free_busy : ℕ → List Printer → List Printer
free_busy id [] = []
free_busy id (p ∷ ps) = (if p.id == id then record p { busy = 0 } else p) ∷ free_busy id ps

unfoldable pub free_chosen : Option ℕ → List Printer → List Printer
free_chosen none ps = ps
free_chosen (some id) ps = free_busy id ps

-- What `remove_job` does. `dangling` is a list whose last node still points to the node that was
-- freed; `undefined_behaviour` is an access to a NULL head or to a freed node.
pub data Removal : Type 0 where
  done : List Job → List Printer → Removal
  dangling : List Job → List Printer → Removal
  undefined_behaviour : Removal

-- The node before the result.
unfoldable pub after_job : Job → Removal → Removal
after_job j (done js ps) = done (j ∷ js) ps
after_job j (dangling js ps) = dangling (j ∷ js) ps
after_job j undefined_behaviour = undefined_behaviour

-- A later node is freed, and what follows it: without a next node nothing more is done, and with one
-- `*head->next = *temp` writes to the node that was freed.
unfoldable pub free_later : List Job → List Printer → Removal
free_later [] ps = dangling [] ps
free_later (j ∷ js) ps = undefined_behaviour

-- The loop over the jobs after the first.
unfoldable pub remove_later : List Job → ℕ → List Printer → Removal
remove_later [] id ps = done [] ps
remove_later (j ∷ js) id ps =
    let rest = remove_later js id ps in if j.jobid == id then free_later js ps else after_job j rest

unfoldable pub remove_job : List Job → ℕ → List Printer → Removal
remove_job [] id ps = undefined_behaviour
remove_job (j ∷ js) id ps =
    let freed = free_chosen j.chosen_printer ps in
    if j.jobid == id then done js freed else after_job j (remove_later js id freed)
