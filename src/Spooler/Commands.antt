-- ===== src/Spooler/Commands.antt =====
-- `Printer Spooler/src/main.c`: the commands on the types, the printers and the jobs. A pointer to a
-- job in the list is its place. What is printed is left out; the time of the n-th look at the clock,
-- and WIFEXITED, are arguments.
pub mod Aged
pub mod Room
pub mod Printing
pub mod Kept
pub mod Settled
pub mod Mode
mod Tests
use cse.Base.{
  ℕ, zero, suc, ◌+◌, ◌-◌, ◌*◌, ◌/◌, ◌%◌, ◌^◌, bit_xor, Bool, true, false, not, ◌&&◌, ◌||◌, Option,
  none, some, List, [], ◌∷◌, ◌++◌, ◌==◌, ltb, if◌then◌else◌, get_elem?, set, length, codes,
}
use cse.Base.Word.{u32}
use mathlib.Core.Option.{map}
use cse.Spooler.Text.{extension}
use cse.Spooler.Printers.{Printer, Printers, same, search_printer, add_printer, get_printer_by_id}
use cse.Spooler.Jobs.{Job, Jobs, JobStatus, add_job, search_jobid, change_job_status}
use cse.Spooler.Types.{Node, search_list, add_list, add_conv}
use cse.Spooler.Search.{Search, Run, done, crash, no_fuel, and_then, bfs}

-- `head` with the arrays of the search, `phead`, `jhead`, and the looks at the clock so far.
pub record Spool : Type 0 where
  pub search : Search
  pub printers : Printers
  pub jobs : Jobs
  pub ticks : ℕ

abbrev pub set_value : Option Printer → ℕ
set_value none = 0
set_value (some p) = u32 (2 ^ p.id)

unfoldable pub printer_set_value : List Printer → List ℕ → ℕ
printer_set_value ps name = set_value (search_printer ps name)

-- `set ^= temp_set` for each name; none where a name is not known.
unfoldable pub printer_set : List Printer → ℕ → List (List ℕ) → Option ℕ
printer_set ps set [] = some set
printer_set ps set (name ∷ names) =
    let value = printer_set_value ps name in
    let rest = printer_set ps (bit_xor set value) names in if value == 0 then none else rest

abbrev pub can_print : Option Printer → Bool
can_print none = false
can_print (some p) = not (p.enabled == 0) && (p.busy == 0)

abbrev pub type_of : Option Printer → List ℕ
type_of none = []
type_of (some p) = p.type

abbrev pub has_bit : ℕ → ℕ → Bool
has_bit set i = (set / 2 ^ i) % 2 == 1

abbrev pub found_path : Search → Bool
found_path st = elim st.result [ [] ↦ false | c ∷ r ↦ true ]

-- The loop of `find_bfs` over n bits from i on: a printer, and the state of the search.
unfoldable pub find_loop : ℕ → ℕ → Job → List Printer → Search → Run (Option Printer × Search)
find_loop zero i job ps st = done (none, st)
find_loop (suc n) i job ps st =
    let p = get_printer_by_id ps i in
    let rest : Search → Run (Option Printer × Search) = find_loop n (i + 1) job ps in
    let after : Search → Run (Option Printer × Search) =
      λ st1. if found_path st1 then done (p, st1) else rest st1 in
    if has_bit job.eligible_printers i && can_print p
    then and_then (bfs st job.file_type (type_of p)) after
    else rest st

unfoldable pub find_bfs : Job → Spool → Run (Option Printer × Search)
find_bfs job s = find_loop 32 0 job s.printers.head s.search

abbrev pub is_queued : JobStatus → Bool
is_queued JobStatus.queued = true
is_queued status = false

abbrev pub is_waiting : Job → Bool
is_waiting j = is_queued j.status

-- The jobs that are queued.
abbrev pub waiting : List Job → ℕ
waiting [] = 0
waiting (j ∷ js) = (if is_waiting j then 1 else 0) + waiting js

module _ (time : ℕ → ℕ) where
  abbrev pub new_job : Spool → List ℕ → List ℕ → ℕ → Spool
  new_job s file ext set = record s {
    jobs = (add_job (time s.ticks) file ext set s.jobs).1;
    ticks = s.ticks + 1;
  }

  abbrev pub print_set : Spool → List ℕ → List ℕ → Option ℕ → Option Spool
  print_set s file ext none = none
  print_set s file ext (some set) = if set == 0 then none else some (new_job s file ext set)

  abbrev pub print_type : Spool → List ℕ → List (List ℕ) → List ℕ → Option Node → Option Spool
  print_type s file names ext none = none
  print_type s file [] ext (some node) = some (new_job s file ext (2 ^ 32 - 1))
  print_type s file (name ∷ names) ext (some node) =
      print_set s file ext (printer_set s.printers.head 0 (name ∷ names))

  abbrev pub print_ext : Spool → List ℕ → List (List ℕ) → Option (List ℕ) → Option Spool
  print_ext s file names none = none
  print_ext s file names (some ext) = print_type s file names ext (search_list s.search.nodes ext)

  -- none for NULL; else the new job is the last of the list.
  unfoldable pub print : Spool → List ℕ → List (List ℕ) → Option Spool
  print s file names = print_ext s file names (extension file)

  -- The status of a job at a place.
  abbrev pub set_status : ℕ → Job → JobStatus → Spool → Spool
  set_status i j status s = record s {
    jobs = record s.jobs { head = set s.jobs.head i (change_job_status (time s.ticks) j status) };
    ticks = s.ticks + 1;
  }

  module _ (wifexited : ℕ → ℕ) where
    -- The status that a job gets after the fork.
    abbrev pub status_after : JobStatus
    status_after = if wifexited 0 == 0 then JobStatus.completed else JobStatus.aborted

    -- What the main process does in `fork_conv` before it calls `process_print`. The printer is busy
    -- in between only.
    unfoldable pub fork_conv : ℕ → Job → Printer → Spool → Spool
    fork_conv i j p s =
        let running = record j { chosen_printer = some p.id } in
        let s1 = set_status i running JobStatus.running s in
        set_status i (change_job_status (time s.ticks) running JobStatus.running) status_after s1

    -- A queued job, with what `find_bfs` found; `again` is `process_print` from a place on.
    abbrev pub process_job :
        (ℕ → Spool → Run Spool) → ℕ → Job → Spool → Run (Option Printer × Search) → Run Spool
    process_job again i j s crash = crash
    process_job again i j s no_fuel = no_fuel
    process_job again i j s (done (none, st)) = again (i + 1) (record s { search = st })
    process_job again i j s (done (some p, st)) =
        and_then (again 0 (fork_conv i j p (record s { search = st }))) (again (i + 1))

    abbrev pub process_at : (ℕ → Spool → Run Spool) → ℕ → Spool → Option Job → Run Spool
    process_at again i s none = done s
    process_at again i s (some j) =
        if is_queued j.status then process_job again i j s (find_bfs j s) else again (i + 1) s

    -- The loop of `process_print` from a place on, with fuel for its turns and its calls.
    unfoldable pub process_from : ℕ → ℕ → Spool → Run Spool
    process_from zero i s = no_fuel
    process_from (suc fuel) i s = process_at (process_from fuel) i s (get_elem? s.jobs.head i)

    -- Each call of `process_print` but the first is after a job that is queued no more.
    unfoldable pub process_print : Spool → Run Spool
    process_print s = process_from (suc (waiting s.jobs.head) * suc (length s.jobs.head)) 0 s
