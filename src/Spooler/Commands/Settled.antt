-- ===== src/Spooler/Commands/Settled.antt =====
-- `Printer Spooler/src/main.c`: the statuses that jobs have between two commands.
use cse.Base.{
  ℕ, ◌≡◌, ◌⊎◌, inl, inr, refl, true, false, Option, none, some, List, ◌==◌, get_elem?, if_both,
  codes, Option-cases,
}
use cse.Spooler.Printers.{same}
use cse.Spooler.Jobs.{Job, JobStatus, change_job_status}
use cse.Spooler.Text.{strtok, is_space, is_newline, is_line_end, strtoi}
use cse.Spooler.Commands.{Spool}
use cse.Spooler.Commands.Mode.{
  printer_command, job_place, job_at, found_job, allows, names_of, move_job, job_command,
  run_command, run_token, run_text, run_line, interactive_mode,
}
use cse.Spooler.Commands.Kept.{
  is_settled, Settled, KeptRun, All-set, All-get_elem?, print_command-Kept, conversion_command-Kept,
  enable_command-Kept, going-Kept, type_command-Settled, disable_command-Settled,
  printer_command-Kept,
}

-- `cancel` aborts; the other commands on jobs find none that they may change.
allows_settled :
    (needed status : JobStatus) → is_settled status ≡ true → allows (some needed) status ≡ false
allows_settled JobStatus.queued JobStatus.queued h = refl
allows_settled JobStatus.running JobStatus.queued h = refl
allows_settled JobStatus.paused JobStatus.queued h = refl
allows_settled JobStatus.completed JobStatus.queued h = refl
allows_settled JobStatus.aborted JobStatus.queued h = refl
allows_settled JobStatus.queued JobStatus.aborted h = refl
allows_settled JobStatus.running JobStatus.aborted h = refl
allows_settled JobStatus.paused JobStatus.aborted h = refl
allows_settled JobStatus.completed JobStatus.aborted h = refl
allows_settled JobStatus.aborted JobStatus.aborted h = refl
allows_settled needed JobStatus.running h = absurd (cc (h))
allows_settled needed JobStatus.paused h = absurd (cc (h))
allows_settled needed JobStatus.completed h = absurd (cc (h))

abbrev SettledJob : Option (ℕ × Job) → Type 0
SettledJob none = Unit
SettledJob (some x) = is_settled x.1.status ≡ true

found_job-Settled : (s : Spool) (o : Option ℕ) → Settled s → SettledJob (found_job s o)
found_job-Settled s none h = tt
found_job-Settled s (some id) h = at_place (job_place s.jobs.head id)
  where
    at_place : (o : Option ℕ) → SettledJob (job_at s.jobs.head o)
    at_place none = tt
    at_place (some i) = elim (Option-cases (get_elem? s.jobs.head i)) [
      | inl e ↦ rw (e) tt
      | inr (j, e) ↦ rw (e) (All-get_elem? (λ u. is_settled u.status ≡ true) s.jobs.head i j h e)
    ]

move_job-Settled :
    (time : ℕ → ℕ) (needed : Option JobStatus) (status : JobStatus) (o : Option (ℕ × Job))
    (s : Spool)
    → (needed ≡ none) × (is_settled status ≡ true) ⊎ ((n : JobStatus) × (needed ≡ some n))
    → SettledJob o
    → Settled s
    → Settled (move_job time needed status o s)
unfolding change_job_status
move_job-Settled time needed status none s e g h = h
move_job-Settled time needed status (some x) s (inl e) g h =
    if_both Settled (allows needed x.1.status) _ s
      (All-set (λ u. is_settled u.status ≡ true) s.jobs.head x.0 _ e.1 h) h
move_job-Settled time needed status (some x) s (inr (n, e)) g h =
    rw (e, allows_settled n x.1.status g) h

job_command-Settled :
    (time : ℕ → ℕ) (needed : Option JobStatus) (status : JobStatus) (a b : Option (List ℕ))
    (s : Spool)
    → (needed ≡ none) × (is_settled status ≡ true) ⊎ ((n : JobStatus) × (needed ≡ some n))
    → Settled s
    → Settled (job_command time needed status a b s)
unfolding job_command
job_command-Settled time needed status none b s e h = h
job_command-Settled time needed status (some a) (some b) s e h = h
job_command-Settled time needed status (some a) none s e h =
    move_job-Settled time needed status (found_job s (strtoi a)) s e
      (found_job-Settled s (strtoi a) h) h

module _ (time wifexited : ℕ → ℕ) (exits : (wifexited 0 == 0) ≡ false) where
  run_command-Settled :
      (token r : List ℕ) (s : Spool) → Settled s → KeptRun (run_command time wifexited token r s)
  unfolding run_command
  run_command-Settled token r s h =
      let (a, r1) = strtok is_space r in
      let (b, r2) = strtok is_space r1 in
      let (c, r3) = strtok is_space r2 in
      if_both KeptRun (same token (codes "quit")) _ _ h (
        if_both KeptRun (same token (codes "type")) _ _ (type_command-Settled a b s h) (
          if_both KeptRun (same token (codes "printer")) _ _
            (going-Kept (printer_command a b c s) (printer_command-Kept a b c s h))
            (if_both KeptRun (same token (codes "conversion")) _ _
              (going-Kept _ (conversion_command-Kept time wifexited exits a b c r3 s h))
              (if_both KeptRun (same token (codes "print")) _ _
                (going-Kept _ (print_command-Kept time wifexited exits a (names_of b c r3) s h))
                (if_both KeptRun (same token (codes "cancel")) _ _
                  (job_command-Settled time none JobStatus.aborted a b s (inl (refl, refl)) h)
                  (if_both KeptRun (same token (codes "pause")) _ _
                    (job_command-Settled time (some JobStatus.running) JobStatus.paused a b s
                      (inr (JobStatus.running, refl)) h)
                    (if_both KeptRun (same token (codes "resume")) _ _
                      (job_command-Settled time (some JobStatus.paused) JobStatus.running a b s
                        (inr (JobStatus.paused, refl)) h)
                      (if_both KeptRun (same token (codes "disable")) _ _
                        (disable_command-Settled a b s h)
                        (if_both KeptRun (same token (codes "enable")) _ _
                          (going-Kept _ (enable_command-Kept time wifexited exits a b s h))
                          h)))))))))

  run_token-Settled :
      (x : Option (List ℕ) × List ℕ) (s : Spool)
      → Settled s
      → KeptRun (run_token time wifexited x s)
  run_token-Settled (none, r) s h = h
  run_token-Settled (some token, r) s h = run_command-Settled token r s h

  run_text-Settled :
      (o : Option (List ℕ)) (s : Spool) → Settled s → KeptRun (run_text time wifexited o s)
  run_text-Settled none s h = h
  run_text-Settled (some line) s h = run_token-Settled (strtok is_space line) s h

  run_line-Settled :
      (o : Option (List ℕ)) (s : Spool) → Settled s → KeptRun (run_line time wifexited o s)
  run_line-Settled none s h = h
  run_line-Settled (some text) s h = run_text-Settled (strtok is_line_end text).0 s h

-- Where WIFEXITED(0) is not 0 and every job is QUEUED or ABORTED, any line of input ends within
-- the fuel with every job QUEUED or ABORTED, unless it makes the program follow a NULL pointer or
-- write past an array of the search.
pub interactive_mode-Settled :
    (time wifexited : ℕ → ℕ) (input : List ℕ) (s : Spool)
    → (wifexited 0 == 0) ≡ false
    → Settled s
    → KeptRun (interactive_mode time wifexited input s)
unfolding interactive_mode
interactive_mode-Settled time wifexited input s exits h =
    run_line-Settled time wifexited exits (strtok is_newline input).0 s h
