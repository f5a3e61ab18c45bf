-- ===== src/Spooler/Commands/Printing.antt =====
-- `Printer Spooler/src/main.c`: `process_print` ends, and what it does to the jobs.
use cse.Base.{
  ℕ, zero, suc, ◌+◌, ◌*◌, ◌<◌, ◌≤◌, ◌≡◌, ◌⊎◌, inl, inr, refl, sym, ◌∙◌, true, false, Option, none,
  some, ◌==◌, get_elem?, set, length, arith, Bool-cases, Option-cases,
}
use mathlib.Core.Path.{subst}
use cse.Spooler.Printers.{Printer}
use cse.Spooler.Jobs.{Job, JobStatus, change_job_status, kept_printer}
use cse.Spooler.Search.{Search, Run, done, crash, and_then}
use cse.Spooler.Commands.{
  Spool, find_bfs, is_queued, fork_conv, process_from, process_job, waiting, process_print,
}
use cse.Spooler.Commands.Room.{HasRoom, RoomFound, resize, find_loop-Runs}
use cse.Spooler.Commands.Aged.{
  Aged, Aged-refl, Aged-trans, Aged-set, is_queued_iff, length-Aged, waiting-Aged, waiting-set,
  waiting-suc, get_elem?-lt-length, set-set,
}

-- Both arrays have room for the searches for the jobs that are queued.
abbrev pub Room : Spool → Type 0
Room s = HasRoom s.search (waiting s.jobs.head)

module _ (time wifexited : ℕ → ℕ) (exits : (wifexited 0 == 0) ≡ false) where
  pub fork_conv-jobs :
      (i : ℕ) (j : Job) (p : Printer) (s : Spool)
      → (k : Job) × ((fork_conv time wifexited i j p s).jobs.head ≡ set s.jobs.head i k)
        × (k.status ≡ JobStatus.aborted)
        × (k.chosen_printer ≡ none)
        × (k.jobid ≡ j.jobid)
  unfolding fork_conv change_job_status kept_printer
  fork_conv-jobs i j p s = rw (exits) (_, set-set s.jobs.head i _ _, refl, refl, refl)

  fork_conv-printers :
      (i : ℕ) (j : Job) (p : Printer) (s : Spool)
      → (fork_conv time wifexited i j p s).printers ≡ s.printers
  unfolding fork_conv
  fork_conv-printers i j p s = refl

  fork_conv-search :
      (i : ℕ) (j : Job) (p : Printer) (s : Spool)
      → (fork_conv time wifexited i j p s).search ≡ s.search
  unfolding fork_conv
  fork_conv-search i j p s = refl

  -- `process_print` from a place on: it ends, or the arrays have no room.
  abbrev Ends : Spool → Run Spool → Type 0
  Ends s o =
      (o ≡ crash) × (Room s → ⊥)
      ⊎ ((t : Spool) × (o ≡ done t)
          × Aged s.jobs.head t.jobs.head
          × (t.printers ≡ s.printers)
          × (Room s → Room t))

  -- A job that is given to a printer.
  fork_conv-Aged :
      (i : ℕ) (j : Job) (p : Printer) (s : Spool)
      → get_elem? s.jobs.head i ≡ some j
      → is_queued j.status ≡ true
      → Aged s.jobs.head (fork_conv time wifexited i j p s).jobs.head
        × (waiting (fork_conv time wifexited i j p s).jobs.head + 1 ≡ waiting s.jobs.head)
  fork_conv-Aged i j p s g h =
      let (k, e, a, c, d) = fork_conv-jobs i j p s in
      let b : is_queued k.status ≡ false = rw (a) refl in
      rw (e) (
        Aged-set s.jobs.head i j k g (inr (is_queued_iff j.status h, a, c, d)),
        waiting-set s.jobs.head i j k g h b,
      )

  Ends-trans :
      (s t : Spool) (o : Run Spool)
      → Aged s.jobs.head t.jobs.head
      → t.printers ≡ s.printers
      → (Room s → Room t)
      → Ends t o
      → Ends s o
  Ends-trans s t o a p k (inl (e, n)) = inl (e, λ h. n (k h))
  Ends-trans s t o a p k (inr (u, e, b, q, l)) =
      inr (u, e, Aged-trans s.jobs.head t.jobs.head u.jobs.head a b, q ∙ p, λ h. l (k h))

  -- After a first call of `process_print`.
  after_first :
      (s s1 : Spool) (r : Run Spool) (f : Spool → Run Spool)
      → Aged s.jobs.head s1.jobs.head
      → s1.printers ≡ s.printers
      → (Room s → Room s1)
      → Ends s1 r
      → ((t : Spool) → Aged s1.jobs.head t.jobs.head → Ends t (f t))
      → Ends s (and_then r f)
  after_first s s1 r f a p k (inl (e, n)) g = inl (rw (e) refl, λ h. n (k h))
  after_first s s1 r f a p k (inr (t, e, b, q, l)) g =
      subst (λ o. Ends s (and_then o f)) (sym e)
        (Ends-trans s t (f t) (Aged-trans s.jobs.head s1.jobs.head t.jobs.head a b) (q ∙ p)
          (λ h. l (k h)) (g t b))

  -- The product that bounds the fuel, for one job less.
  fuel_step :
      (q m n r fuel : ℕ) → m ≡ n → suc q * suc n + suc r ≤ suc fuel → q * suc m + suc m ≤ fuel
  fuel_step q m n r fuel e h = rw (e) (omega arith)

  -- A queued job, where `process_print` ends from any place and with less fuel.
  process_job-Ends :
      (again : ℕ → Spool → Run Spool) (fuel : ℕ)
      → ((q r i : ℕ) (s : Spool)
          → waiting s.jobs.head ≤ q
          → i ≤ length s.jobs.head
          → length s.jobs.head < i + r
          → q * suc (length s.jobs.head) + r ≤ fuel
          → Ends s (again i s))
      → (q r i w : ℕ) (j : Job) (s : Spool) (x : Option Printer × Search) → waiting s.jobs.head ≤ q
      → length s.jobs.head < i + suc r
      → q * suc (length s.jobs.head) + suc r ≤ suc fuel
      → get_elem? s.jobs.head i ≡ some j
      → is_queued j.status ≡ true
      → waiting s.jobs.head ≡ suc w
      → (HasRoom s.search (suc w) → RoomFound x w)
      → Ends s (process_job time wifexited again i j s (done x))
  process_job-Ends again fuel f q r i w j s (none, st) b l e g h v k =
      Ends-trans s (record s { search = st }) _ (Aged-refl s.jobs.head) refl
        (λ m. resize st (suc w) _ (sym v) (k (resize s.search _ (suc w) v m)))
        (f q r (i + 1) (record s { search = st }) b
          (omega (arith, get_elem?-lt-length s.jobs.head i j g)) (omega arith) (omega arith))
  process_job-Ends again fuel f zero r i w j s (some p, st) b l e g h v k =
      absurd (omega (arith, v))
  process_job-Ends again fuel f (suc q) r i w j s (some p, st) b l e g h v k =
      let s1 = fork_conv time wifexited i j p (record s { search = st }) in
      let a = fork_conv-Aged i j p (record s { search = st }) g h in
      let m = length-Aged s.jobs.head s1.jobs.head a.0 in
      after_first s s1 _ (again (i + 1)) a.0 (fork_conv-printers i j p (record s { search = st }))
        (λ z.
          subst (λ u. HasRoom u (waiting s1.jobs.head))
            (sym (fork_conv-search i j p (record s { search = st })))
            (resize st w _ (omega (arith, a.1, v)) (k (resize s.search _ (suc w) v z))))
        (f q (suc (length s1.jobs.head)) 0 s1 (omega (arith, a.1)) (omega arith) (omega arith)
          (fuel_step q (length s1.jobs.head) (length s.jobs.head) r fuel m e))
        (λ t c.
          let n : length t.jobs.head ≡ length s.jobs.head =
            length-Aged s1.jobs.head t.jobs.head c ∙ m in
          f (suc q) r (i + 1) t (omega (arith, a.1, waiting-Aged s1.jobs.head t.jobs.head c))
            (omega (arith, n, get_elem?-lt-length s.jobs.head i j g)) (omega (arith, n))
            (rw (n) (omega arith)))

  process_from-Ends :
      (fuel q r i : ℕ) (s : Spool)
      → waiting s.jobs.head ≤ q
      → i ≤ length s.jobs.head
      → length s.jobs.head < i + r
      → q * suc (length s.jobs.head) + r ≤ fuel
      → Ends s (process_from time wifexited fuel i s)
  unfolding process_from find_bfs
  process_from-Ends zero q r i s w b l e = absurd (omega arith)
  process_from-Ends (suc fuel) q zero i s w b l e = absurd (omega arith)
  process_from-Ends (suc fuel) q (suc r) i s wq b l e =
      elim (Option-cases (get_elem? s.jobs.head i)) [
        | inl g ↦ inr (s, rw (g) refl, Aged-refl s.jobs.head, refl, λ m. m)
        | inr (j, g) ↦ elim (Bool-cases (is_queued j.status)) [
          | inr h ↦
              rw (g, h)
                (process_from-Ends fuel q r (i + 1) s wq
                  (omega (arith, get_elem?-lt-length s.jobs.head i j g)) (omega arith)
                  (omega arith))
          | inl h ↦
              let (w, v) = waiting-suc s.jobs.head i j g h in
              elim (find_loop-Runs w 32 0 j s.printers.head s.search) [
                | inl o ↦ inl (rw (g, h, o.0) refl, λ m. o.1 (resize s.search _ (suc w) v m))
                | inr x ↦
                    rw (g, h, x.1)
                      (process_job-Ends (process_from time wifexited fuel) fuel
                        (process_from-Ends fuel) q r i w j s x.0 wq l e g h v x.2)
              ]
        ]
      ]

-- Where WIFEXITED(0) is not 0, process_print ends within its fuel in every state in which queue
-- has at most one entry, the types and the queued jobs are at most 126 together, and the entries
-- of result and the queued jobs at most 128: each job is as it was, or it was QUEUED and is
-- ABORTED with no printer and the same number, the printers are as they were, and these bounds
-- are kept. In another state it does so too, but for the bounds, or it writes past an array of
-- the search.
pub process_print-Aged :
    (time wifexited : ℕ → ℕ)
    → (wifexited 0 == 0) ≡ false
    → (s : Spool)
    → (process_print time wifexited s ≡ crash) × (Room s → ⊥)
      ⊎ ((t : Spool) × (process_print time wifexited s ≡ done t)
          × Aged s.jobs.head t.jobs.head
          × (t.printers ≡ s.printers)
          × (Room s → Room t))
unfolding process_print
process_print-Aged time wifexited exits s =
    process_from-Ends time wifexited exits (suc (waiting s.jobs.head) * suc (length s.jobs.head))
      (waiting s.jobs.head) (suc (length s.jobs.head)) 0 s (omega arith) (omega arith) (omega arith)
      (omega arith)
