-- ===== src/Spooler/Commands/Tests.antt =====
-- Lines of input, one after the other.
use cse.Base.{ℕ, ◌≡◌, refl, Bool, true, none, List, [], ◌∷◌, codes, map, replicate, ◌⊎◌, arith}
use cse.Spooler.Printers.{
  Printer, no_printers, same, search_printer, add_printer, insert_printer, get_printer_by_id,
  find_id,
}
use cse.Spooler.Jobs.{Job, JobStatus, add_job, change_job_status, kept_printer}
use cse.Spooler.Types.{search_list, add_list, append_new, reset_visited, search_conv}
use cse.Spooler.Search.{
  Run, no_fuel, done, crash, bfs, look, search_from, backtrack, leads, look_at, look_each,
  look_node, pop_to, visit, way_back,
}
use cse.Spooler.Text.{strtok, skip_delims, until_delim, extension, digits_value, strtoi, tokens}
use cse.Spooler.Commands.{
  Spool, process_print, print, find_bfs, find_loop, fork_conv, printer_set, printer_set_value,
  process_from,
}
use cse.Spooler.Commands.Mode.{
  interactive_mode, run_command, printer_command, type_command, print_command, conversion_command,
  disable_command, enable_command, job_command, job_place, set_enabled,
}
use cse.Spooler.Commands.Aged.{Aged}
use cse.Spooler.Commands.Printing.{process_print-Aged, Room}
use cse.Spooler.Commands.Room.{HasRoom}
use cse.Spooler.Commands.Kept.{KeptRun}
use cse.Spooler.Commands.Settled.{interactive_mode-Settled}

abbrev clock : ℕ → ℕ
clock n = n

abbrev exited : ℕ → ℕ
exited n = 1

abbrev no_spool : Spool
no_spool = record {
  search = record { nodes = []; queue = []; result = [] };
  printers = no_printers;
  jobs = record { head = []; job_id = 0 };
  ticks = 0;
}

abbrev run_lines : List (List ℕ) → Run (Bool × Spool) → Run (Bool × Spool)
run_lines [] r = r
run_lines (line ∷ lines) crash = crash
run_lines (line ∷ lines) no_fuel = no_fuel
run_lines (line ∷ lines) (done x) = run_lines lines (interactive_mode clock exited line x.1)

abbrev statuses : Run (Bool × Spool) → List JobStatus
statuses crash = []
statuses no_fuel = []
statuses (done x) = map (λ j. j.status) x.1.jobs.head

abbrev waiting_job : Job
waiting_job = record {
  jobid = 0;
  status = JobStatus.queued;
  pgid = 0;
  file_name = codes "a.pdf";
  file_type = codes "pdf";
  eligible_printers = 4294967295;
  chosen_printer = none;
  creation_time = 0;
  change_time = 0;
}

abbrev alice : Printer
alice = record { id = 0; name = codes "alice"; type = codes "pdf"; enabled = 1; busy = 0 }

abbrev ready : Spool
ready = record {
  search = record {
    nodes = record { data_of = codes "pdf"; visited = 0; conv = [] } ∷ [];
    queue = [];
    result = [];
  };
  printers = record { head = alice ∷ []; printer_id = 1 };
  jobs = record { head = waiting_job ∷ []; job_id = 1 };
  ticks = 1;
}

ready-HasRoom : HasRoom ready.search 1
ready-HasRoom = record { queue = omega arith; types = omega arith; results = omega arith }

process_print-Aged_example :
    (process_print clock exited ready ≡ crash) × (Room ready → ⊥)
    ⊎ ((t : Spool) × (process_print clock exited ready ≡ done t)
        × Aged ready.jobs.head t.jobs.head
        × (t.printers ≡ ready.printers)
        × (Room ready → Room t))
process_print-Aged_example = process_print-Aged clock exited refl ready

-- A search for the type of the printer itself, with 128 types in `result`.
abbrev full : Spool
full = record ready { search = record ready.search { result = replicate 128 (codes "pdf") } }

full_crashes : process_print clock exited full ≡ crash
unfolding process_print process_from find_bfs find_loop bfs get_printer_by_id find_id same
full_crashes = refl

interactive_mode-Settled_example : KeptRun (interactive_mode clock exited (codes "cancel 0") ready)
interactive_mode-Settled_example =
    interactive_mode-Settled clock exited (codes "cancel 0") ready refl (refl, tt)

aborted_at_once :
    statuses (
      run_lines
        (codes "type pdf"
          ∷ codes "printer alice pdf"
          ∷ codes "print a.pdf"
          ∷ codes "print b.pdf bob"
          ∷ codes "enable alice"
          ∷ codes "pause 0"
          ∷ codes "disable alice"
          ∷ codes "print c.pdf alice"
          ∷ [])
        (done (true, no_spool)))
    ≡ JobStatus.aborted ∷ JobStatus.queued ∷ []
unfolding interactive_mode process_print strtok skip_delims until_delim run_command printer_command
    type_command print_command print extension conversion_command digits_value disable_command
    enable_command find_bfs find_loop fork_conv job_command job_place printer_set printer_set_value
    process_from set_enabled strtoi tokens same search_printer search_list add_list append_new
    add_printer insert_printer add_job change_job_status kept_printer find_id get_printer_by_id bfs
    look search_from reset_visited search_conv backtrack leads look_at look_each look_node pop_to
    visit way_back
aborted_at_once = refl
