-- ===== src/Spooler/Commands/Mode.antt =====
-- `Printer Spooler/src/main.c`: `interactive_mode`, command by command.
use cse.Base.{
  ℕ, suc, Bool, true, false, not, Option, none, some, List, [], ◌∷◌, ◌==◌, if◌then◌else◌, get_elem?,
  length, codes,
}
use mathlib.Core.Option.{map}
use cse.Spooler.Printers.{Printer, Printers, same, search_printer, add_printer}
use cse.Spooler.Jobs.{Job, JobStatus}
use cse.Spooler.Types.{Node, search_list, add_list, add_conv}
use cse.Spooler.Search.{Search, Run, done, crash, no_fuel}
use cse.Spooler.Text.{strtok, is_space, is_newline, is_line_end, strtoi, tokens}
use cse.Spooler.Commands.{Spool, find_bfs, print, set_status, fork_conv, process_print}

abbrev pub with_search : Spool → List Node → Spool
with_search s ns = record s { search = record s.search { nodes = ns } }

unfoldable pub type_command : Option (List ℕ) → Option (List ℕ) → Spool → Spool
type_command none arg2 s = s
type_command (some a) (some b) s = s
type_command (some a) none s = with_search s (add_list s.search.nodes a).1

abbrev pub added_printer : Spool → Option Printer × Printers → Run Spool
added_printer s (none, ps) = crash
added_printer s (some p, ps) = done (record s { printers = ps })

abbrev pub new_printer : Spool → List ℕ → List ℕ → Option Printer → Option Node → Run Spool
new_printer s name type (some p) o = done s
new_printer s name type none none = done s
new_printer s name type none (some n) = added_printer s (add_printer s.printers name type)

unfoldable pub printer_command :
    Option (List ℕ) → Option (List ℕ) → Option (List ℕ) → Spool → Run Spool
printer_command (some a) (some b) none s =
    new_printer s a b (search_printer s.printers.head a) (search_list s.search.nodes b)
printer_command (some a) (some b) (some c) s = done s
printer_command (some a) none arg3 s = done s
printer_command none arg2 arg3 s = done s

-- The place of the first job with the number.
unfoldable pub job_place : List Job → ℕ → Option ℕ
job_place [] id = none
job_place (j ∷ js) id = let rest = job_place js id in if j.jobid == id then some 0 else map suc rest

abbrev pub job_at : List Job → Option ℕ → Option (ℕ × Job)
job_at js none = none
job_at js (some i) = map (λ j. (i, j)) (get_elem? js i)

abbrev pub found_job : Spool → Option ℕ → Option (ℕ × Job)
found_job s none = none
found_job s (some id) = job_at s.jobs.head (job_place s.jobs.head id)

-- `cancel`, `pause` and `resume`: the status that is needed, and the new one.
abbrev pub allows : Option JobStatus → JobStatus → Bool
allows none status = true
allows (some JobStatus.running) JobStatus.running = true
allows (some JobStatus.paused) JobStatus.paused = true
allows (some needed) status = false

-- `enabled` of the first printer with the name.
unfoldable pub set_enabled : List ℕ → ℕ → List Printer → List Printer
set_enabled name e [] = []
set_enabled name e (p ∷ ps) =
    let rest = set_enabled name e ps in
    if same p.name name then record p { enabled = e } ∷ ps else p ∷ rest

abbrev pub with_enabled : List ℕ → ℕ → Spool → Spool
with_enabled name e s = record s {
  printers = record s.printers { head = set_enabled name e s.printers.head };
}

abbrev pub disabled : List ℕ → Option Printer → Spool → Spool
disabled name none s = s
disabled name (some p) s = if p.enabled == 0 then s else with_enabled name 0 s

unfoldable pub disable_command : Option (List ℕ) → Option (List ℕ) → Spool → Spool
disable_command none arg2 s = s
disable_command (some a) (some b) s = s
disable_command (some a) none s = disabled a (search_printer s.printers.head a) s

abbrev pub names_of : Option (List ℕ) → Option (List ℕ) → List ℕ → List (List ℕ)
names_of none arg3 rest = []
names_of (some a) none rest = a ∷ []
names_of (some a) (some b) rest = a ∷ b ∷ tokens (length rest) rest

abbrev pub going : Run Spool → Run (Bool × Spool)
going (done s) = done (true, s)
going crash = crash
going no_fuel = no_fuel

abbrev pub is_none : Option (List ℕ) → Bool
is_none none = true
is_none (some a) = false

module _ (time : ℕ → ℕ) where
  abbrev pub move_job : Option JobStatus → JobStatus → Option (ℕ × Job) → Spool → Spool
  move_job needed status none s = s
  move_job needed status (some x) s =
      if allows needed x.1.status then set_status time x.0 x.1 status s else s

  unfoldable pub job_command :
      Option JobStatus → JobStatus → Option (List ℕ) → Option (List ℕ) → Spool → Spool
  job_command needed status none arg2 s = s
  job_command needed status (some a) (some b) s = s
  job_command needed status (some a) none s = move_job needed status (found_job s (strtoi a)) s

  module _ (wifexited : ℕ → ℕ) where
    unfoldable pub conversion_command :
        Option (List ℕ) → Option (List ℕ) → Option (List ℕ) → List ℕ → Spool → Run Spool
    conversion_command (some a) (some b) (some c) rest s =
        process_print time wifexited
          (with_search s (add_conv s.search.nodes a b c (strtok is_line_end rest).0).1)
    conversion_command (some a) (some b) none rest s = done s
    conversion_command (some a) none arg3 rest s = done s
    conversion_command none arg2 arg3 rest s = done s

    -- The new job, if a printer can take it now.
    abbrev pub start_job : ℕ → Job → Spool → Run (Option Printer × Search) → Run Spool
    start_job i j s crash = crash
    start_job i j s no_fuel = no_fuel
    start_job i j s (done (none, st)) = done (record s { search = st })
    start_job i j s (done (some p, st)) =
        process_print time wifexited (fork_conv time wifexited i j p (record s { search = st }))

    abbrev pub started : Option Job → ℕ → Spool → Run Spool
    started none i s = done s
    started (some j) i s = start_job i j s (find_bfs j s)

    abbrev pub after_print : Spool → Option Spool → Run Spool
    after_print s none = done s
    after_print s (some t) = let i = length s.jobs.head in started (get_elem? t.jobs.head i) i t

    unfoldable pub print_command : Option (List ℕ) → List (List ℕ) → Spool → Run Spool
    print_command none names s = done s
    print_command (some file) names s = after_print s (print time s file names)

    abbrev pub enabled : List ℕ → Option Printer → Spool → Run Spool
    enabled name none s = done s
    enabled name (some p) s =
        if p.enabled == 0 then process_print time wifexited (with_enabled name 1 s) else done s

    unfoldable pub enable_command : Option (List ℕ) → Option (List ℕ) → Spool → Run Spool
    enable_command none arg2 s = done s
    enable_command (some a) (some b) s = done s
    enable_command (some a) none s = enabled a (search_printer s.printers.head a) s

    -- The commands `help`, `printers` and `jobs`, and the errors, only print.
    unfoldable pub run_command : List ℕ → List ℕ → Spool → Run (Bool × Spool)
    run_command token r0 s =
        let (arg1, r1) = strtok is_space r0 in
        let (arg2, r2) = strtok is_space r1 in
        let (arg3, r3) = strtok is_space r2 in
        if same token (codes "quit")
        then done (not (is_none arg1), s)
        else if same token (codes "type")
        then going (done (type_command arg1 arg2 s))
        else if same token (codes "printer")
        then going (printer_command arg1 arg2 arg3 s)
        else if same token (codes "conversion")
        then going (conversion_command arg1 arg2 arg3 r3 s)
        else if same token (codes "print")
        then going (print_command arg1 (names_of arg2 arg3 r3) s)
        else if same token (codes "cancel")
        then going (done (job_command none JobStatus.aborted arg1 arg2 s))
        else if same token (codes "pause")
        then going (done (job_command (some JobStatus.running) JobStatus.paused arg1 arg2 s))
        else if same token (codes "resume")
        then going (done (job_command (some JobStatus.paused) JobStatus.running arg1 arg2 s))
        else if same token (codes "disable")
        then going (done (disable_command arg1 arg2 s))
        else if same token (codes "enable")
        then going (enable_command arg1 arg2 s)
        else done (true, s)

    abbrev pub run_token : Option (List ℕ) × List ℕ → Spool → Run (Bool × Spool)
    run_token (none, r) s = done (true, s)
    run_token (some token, r) s = run_command token r s

    abbrev pub run_text : Option (List ℕ) → Spool → Run (Bool × Spool)
    run_text none s = done (true, s)
    run_text (some line) s = run_token (strtok is_space line) s

    abbrev pub run_line : Option (List ℕ) → Spool → Run (Bool × Spool)
    run_line none s = done (true, s)
    run_line (some text) s = run_text (strtok is_line_end text).0 s

    -- Whether the loop goes on, and the state after a line of input.
    unfoldable pub interactive_mode : List ℕ → Spool → Run (Bool × Spool)
    interactive_mode input s = run_line (strtok is_newline input).0 s
