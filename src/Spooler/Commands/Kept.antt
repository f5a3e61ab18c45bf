-- ===== src/Spooler/Commands/Kept.antt =====
-- `Printer Spooler/src/main.c`: the commands on types and printers, and print, keep jobs settled.
use cse.Base.{
  ℕ, zero, suc, ◌≡◌, inl, inr, refl, sym, ap, Bool, true, false, Option, none, some, List, [], ◌∷◌,
  ◌++◌, ◌==◌, get_elem?, set, length, All, if_both,
}
use mathlib.Core.Path.{subst}
use cse.Spooler.Printers.{Printer, Printers, search_printer, add_printer}
use cse.Spooler.Jobs.{Job, JobStatus, add_job}
use cse.Spooler.Types.{Node, search_list}
use cse.Spooler.Search.{Search, Run, done, crash, no_fuel}
use cse.Spooler.Text.{extension}
use cse.Spooler.Commands.{
  Spool, printer_set, find_bfs, new_job, print_set, print_type, print, fork_conv, process_print,
  print_ext,
}
use cse.Spooler.Commands.Mode.{
  type_command, added_printer, new_printer, printer_command, with_enabled, disabled,
  disable_command, going, conversion_command, started, start_job, after_print, print_command,
  enabled, enable_command,
}
use cse.Spooler.Commands.Room.{find_loop-Runs}
use cse.Spooler.Commands.Aged.{Aged}
use cse.Spooler.Commands.Printing.{process_print-Aged, fork_conv-jobs}

-- A job waits or is aborted.
abbrev pub is_settled : JobStatus → Bool
is_settled JobStatus.queued = true
is_settled JobStatus.aborted = true
is_settled status = false

abbrev pub Settled : Spool → Type 0
Settled s = All (λ j. is_settled j.status ≡ true) s.jobs.head

-- The outcome of a command: its fuel does not run out.
abbrev pub Kept : Run Spool → Type 0
Kept (done t) = Settled t
Kept crash = Unit
Kept no_fuel = ⊥

abbrev pub KeptRun : Run (Bool × Spool) → Type 0
KeptRun (done x) = Settled x.1
KeptRun crash = Unit
KeptRun no_fuel = ⊥

-- What `print` gives.
abbrev pub KeptPrint : Option Spool → Type 0
KeptPrint none = Unit
KeptPrint (some t) = Settled t

pub All-Aged :
    (js ks : List Job)
    → Aged js ks
    → All (λ j. is_settled j.status ≡ true) js
    → All (λ j. is_settled j.status ≡ true) ks
All-Aged [] [] a h = tt
All-Aged (j ∷ js) (k ∷ ks) (inl e, a) (p, h) =
    (subst (λ u. is_settled u.status ≡ true) (sym e) p, All-Aged js ks a h)
All-Aged (j ∷ js) (k ∷ ks) (inr e, a) (p, h) = (rw (e.1) refl, All-Aged js ks a h)
All-Aged [] (k ∷ ks) a h = absurd a
All-Aged (j ∷ js) [] a h = absurd a

module _ {A : Type 0} (P : A → Type 0) where
  pub All-append : (xs ys : List A) → All P xs → All P ys → All P (xs ++ ys)
  All-append [] ys h g = g
  All-append (x ∷ xs) ys (p, h) g = (p, All-append xs ys h g)

  pub All-set : (xs : List A) (i : ℕ) (x : A) → P x → All P xs → All P (set xs i x)
  All-set [] i x p h = tt
  All-set (y ∷ xs) zero x p h = (p, h.1)
  All-set (y ∷ xs) (suc i) x p h = (h.0, All-set xs i x p h.1)

  pub All-get_elem? : (xs : List A) (i : ℕ) (x : A) → All P xs → get_elem? xs i ≡ some x → P x
  All-get_elem? [] i x h e = absurd (cc (e))
  All-get_elem? (y ∷ xs) zero x h e = subst P (ap (λ o. elim o [ none ↦ x | some u ↦ u ]) e) h.0
  All-get_elem? (y ∷ xs) (suc i) x h e = All-get_elem? xs i x h.1 e

module _ (time wifexited : ℕ → ℕ) (exits : (wifexited 0 == 0) ≡ false) where
  pub process_print-Kept : (s : Spool) → Settled s → Kept (process_print time wifexited s)
  process_print-Kept s h = elim (process_print-Aged time wifexited exits s) [
    | inl o ↦ rw (o.0) tt
    | inr (t, e, a, p, m) ↦ subst Kept (sym e) (All-Aged s.jobs.head t.jobs.head a h)
  ]

  pub fork_conv-Settled :
      (i : ℕ) (j : Job) (p : Printer) (s : Spool)
      → Settled s
      → Settled (fork_conv time wifexited i j p s)
  fork_conv-Settled i j p s h =
      let (k, e, a, c, d) = fork_conv-jobs time wifexited exits i j p s in
      subst (All (λ u. is_settled u.status ≡ true)) (sym e)
        (All-set _ s.jobs.head i k (rw (a) refl) h)

  pub start_job-Kept :
      (i : ℕ) (j : Job) (s : Spool) (x : Option Printer × Search)
      → Settled s
      → Kept (start_job time wifexited i j s (done x))
  start_job-Kept i j s (none, st) h = h
  start_job-Kept i j s (some p, st) h =
      process_print-Kept _ (fork_conv-Settled i j p (record s { search = st }) h)

  pub started-Kept :
      (o : Option Job) (i : ℕ) (s : Spool) → Settled s → Kept (started time wifexited o i s)
  unfolding find_bfs
  started-Kept none i s h = h
  started-Kept (some j) i s h = elim (find_loop-Runs 0 32 0 j s.printers.head s.search) [
    | inl o ↦ rw (o.0) tt
    | inr x ↦ rw (x.1) (start_job-Kept i j s x.0 h)
  ]

  pub new_job-Settled :
      (s : Spool) (file ext : List ℕ) (set : ℕ) → Settled s → Settled (new_job time s file ext set)
  unfolding add_job
  new_job-Settled s file ext set h = All-append _ s.jobs.head _ h (refl, tt)

  pub print_set-Kept :
      (s : Spool) (file ext : List ℕ) (o : Option ℕ)
      → Settled s
      → KeptPrint (print_set time s file ext o)
  print_set-Kept s file ext none h = tt
  print_set-Kept s file ext (some set) h =
      if_both KeptPrint (set == 0) none _ tt (new_job-Settled s file ext set h)

  pub print_type-Kept :
      (s : Spool) (file : List ℕ) (names : List (List ℕ)) (ext : List ℕ) (o : Option Node)
      → Settled s
      → KeptPrint (print_type time s file names ext o)
  print_type-Kept s file [] ext none h = tt
  print_type-Kept s file (name ∷ names) ext none h = tt
  print_type-Kept s file [] ext (some n) h = new_job-Settled s file ext _ h
  print_type-Kept s file (name ∷ names) ext (some n) h =
      print_set-Kept s file ext (printer_set s.printers.head 0 (name ∷ names)) h

  pub print_ext-Kept :
      (s : Spool) (file : List ℕ) (names : List (List ℕ)) (o : Option (List ℕ))
      → Settled s
      → KeptPrint (print_ext time s file names o)
  print_ext-Kept s file names none h = tt
  print_ext-Kept s file names (some ext) h =
      print_type-Kept s file names ext (search_list s.search.nodes ext) h

  pub after_print-Kept :
      (s : Spool) (o : Option Spool)
      → Settled s
      → KeptPrint o
      → Kept (after_print time wifexited s o)
  after_print-Kept s none h g = h
  after_print-Kept s (some t) h g =
      started-Kept (get_elem? t.jobs.head (length s.jobs.head)) (length s.jobs.head) t g

  pub print_command-Kept :
      (o : Option (List ℕ)) (names : List (List ℕ)) (s : Spool)
      → Settled s
      → Kept (print_command time wifexited o names s)
  unfolding print_command print
  print_command-Kept none names s h = h
  print_command-Kept (some file) names s h =
      after_print-Kept s (print_ext time s file names (extension file)) h
        (print_ext-Kept s file names (extension file) h)

  pub conversion_command-Kept :
      (a b c : Option (List ℕ)) (r : List ℕ) (s : Spool)
      → Settled s
      → Kept (conversion_command time wifexited a b c r s)
  unfolding conversion_command
  conversion_command-Kept none b c r s h = h
  conversion_command-Kept (some a) none c r s h = h
  conversion_command-Kept (some a) (some b) none r s h = h
  conversion_command-Kept (some a) (some b) (some c) r s h = process_print-Kept _ h

  pub enabled-Kept :
      (name : List ℕ) (o : Option Printer) (s : Spool)
      → Settled s
      → Kept (enabled time wifexited name o s)
  enabled-Kept name none s h = h
  enabled-Kept name (some p) s h =
      if_both Kept (p.enabled == 0) _ _ (process_print-Kept (with_enabled name 1 s) h) h

  pub enable_command-Kept :
      (a b : Option (List ℕ)) (s : Spool) → Settled s → Kept (enable_command time wifexited a b s)
  unfolding enable_command
  enable_command-Kept none b s h = h
  enable_command-Kept (some a) (some b) s h = h
  enable_command-Kept (some a) none s h = enabled-Kept a (search_printer s.printers.head a) s h

pub going-Kept : (o : Run Spool) → Kept o → KeptRun (going o)
going-Kept (done s) h = h
going-Kept crash h = tt
going-Kept no_fuel h = h

pub type_command-Settled :
    (a b : Option (List ℕ)) (s : Spool) → Settled s → Settled (type_command a b s)
unfolding type_command
type_command-Settled none b s h = h
type_command-Settled (some a) none s h = h
type_command-Settled (some a) (some b) s h = h

pub disabled-Settled :
    (name : List ℕ) (o : Option Printer) (s : Spool) → Settled s → Settled (disabled name o s)
disabled-Settled name none s h = h
disabled-Settled name (some p) s h = if_both Settled (p.enabled == 0) s _ h h

pub disable_command-Settled :
    (a b : Option (List ℕ)) (s : Spool) → Settled s → Settled (disable_command a b s)
unfolding disable_command
disable_command-Settled none b s h = h
disable_command-Settled (some a) (some b) s h = h
disable_command-Settled (some a) none s h =
    disabled-Settled a (search_printer s.printers.head a) s h

pub added_printer-Kept :
    (s : Spool) (x : Option Printer × Printers) → Settled s → Kept (added_printer s x)
added_printer-Kept s (none, ps) h = tt
added_printer-Kept s (some p, ps) h = h

pub new_printer-Kept :
    (s : Spool) (a b : List ℕ) (p : Option Printer) (o : Option Node)
    → Settled s
    → Kept (new_printer s a b p o)
new_printer-Kept s a b (some p) o h = h
new_printer-Kept s a b none none h = h
new_printer-Kept s a b none (some n) h = added_printer-Kept s (add_printer s.printers a b) h

pub printer_command-Kept :
    (a b c : Option (List ℕ)) (s : Spool) → Settled s → Kept (printer_command a b c s)
unfolding printer_command
printer_command-Kept none b c s h = h
printer_command-Kept (some a) none c s h = h
printer_command-Kept (some a) (some b) (some c) s h = h
printer_command-Kept (some a) (some b) none s h =
    new_printer-Kept s a b (search_printer s.printers.head a) (search_list s.search.nodes b) h
