-- ===== src/Imprimer/Session.antt =====
-- `imprimer/src/session.c`: the table of sessions. The calls of the system are arguments: the
-- descriptor from `posix_openpt` (none for -1) and the process id from `fork`, as the parent sees it.
use cse.Base.{
  ℕ, zero, suc, ◌+◌, ◌<◌, ◌≡◌, refl, ◌∙◌, ap, Option, none, some, List, [], ◌∷◌, set, get_elem?,
  length, ◌≢◌, ◌⊎◌, inl, inr, replicate, arith, get_elem?-set_self, get_elem?-set_ne,
}
use cse.Imprimer.Vscreen.{Vscreen, vscreen_init}

-- `struct session`
pub record Session : Type 0 where
  pub sid : ℕ
  pub pid : ℕ
  pub ptyfd : ℕ
  pub error : ℕ
  pub screen : Vscreen

abbrev pub max_sessions : ℕ
max_sessions = 10

-- `sessions` and `fg_session`. A NULL pointer is `none`; `fg_session` is a session's number.
pub record Table : Type 0 where
  pub sessions : List (Option Session)
  pub fg_session : Option ℕ

abbrev pub empty_table : Table
empty_table = record { sessions = replicate max_sessions none; fg_session = none }

-- The loop that looks for a free entry from i on.
unfoldable pub free_entry : List (Option Session) → ℕ → Option ℕ
free_entry [] i = none
free_entry (none ∷ ss) i = some i
free_entry (some s ∷ ss) i = free_entry ss (suc i)

unfoldable pub session_setfg : ℕ → Table → Table
session_setfg i t = record t { fg_session = some i }

unfoldable pub open_session : ℕ → ℕ → ℕ → ℕ → ℕ → Table → Table
open_session i mfd pid lines cols t = session_setfg i (record t {
  sessions = set t.sessions i (
      some
        (record { sid = i; pid = pid; ptyfd = mfd; error = 0; screen = vscreen_init lines cols }));
})

-- The body of the loop, at the free entry if there is one.
unfoldable pub start_session : Option ℕ → Option ℕ → ℕ → ℕ → ℕ → Table → Option ℕ × Table
start_session none openpt pid lines cols t = (none, t)
start_session (some i) none pid lines cols t = (none, t)
start_session (some i) (some mfd) pid lines cols t = (some i, open_session i mfd pid lines cols t)

unfoldable pub session_init : Option ℕ → ℕ → ℕ → ℕ → Table → Option ℕ × Table
session_init openpt pid lines cols t =
    start_session (free_entry t.sessions 0) openpt pid lines cols t

-- The entry that `free_entry` finds, k places from the start: free, with no free one before it.
pub record IsFirstFree (ss : List (Option Session)) (k : ℕ) : Type 0 where
  pub inside : k < length ss
  pub free : get_elem? ss k ≡ some none
  pub first : (m : ℕ) → m < k → get_elem? ss m ≢ some none

abbrev pub IsFull : List (Option Session) → Type 0
IsFull ss = (k : ℕ) → get_elem? ss k ≢ some none

free_entry_lem :
    (ss : List (Option Session)) (i : ℕ)
    → ((free_entry ss i ≡ none) × IsFull ss)
      ⊎ ((k : ℕ) × (free_entry ss i ≡ some (i + k)) × IsFirstFree ss k)
unfolding free_entry
free_entry_lem [] i = inl (refl, λ k e. ground arith)
free_entry_lem (none ∷ ss) i = inr (
  0,
  ap some (omega arith),
  record { inside = omega arith; free = refl; first = λ m h. absurd (omega arith) },
)
free_entry_lem (some s ∷ ss) i = elim (free_entry_lem ss (suc i)) [
  | inl (e, full) ↦ inl (e, later full)
  | inr (k, e, f) ↦ inr (
    suc k,
    e ∙ ap some (omega arith),
    record { inside = omega (arith, f.inside); free = f.free; first = earlier k f.first },
  )
]
  where
    later : IsFull ss → IsFull (some s ∷ ss)
    later h zero e = ground arith
    later h (suc k) e = h k e

    earlier :
        (k : ℕ)
        → ((m : ℕ) → m < k → get_elem? ss m ≢ some none)
        → (m : ℕ) → m < suc k
        → get_elem? (some s ∷ ss) m ≢ some none
    earlier k h zero p e = ground arith
    earlier k h (suc m) p e = h m (omega arith) e

-- Entry k, which was free, holds the new session, which is the foreground session, and the other
-- entries are as before.
pub record IsOpened (k mfd pid lines cols : ℕ) (t t' : Table) : Type 0 where
  pub was_free : IsFirstFree t.sessions k
  pub entry :
      get_elem? t'.sessions k
      ≡ some (
          some (record {
            sid = k;
            pid = pid;
            ptyfd = mfd;
            error = 0;
            screen = vscreen_init lines cols;
          }))
  pub others : (m : ℕ) → k ≢ m → get_elem? t'.sessions m ≡ get_elem? t.sessions m
  pub foreground : t'.fg_session ≡ some k

open_session-IsOpened :
    (k mfd pid lines cols : ℕ) (t : Table)
    → IsFirstFree t.sessions k
    → IsOpened k mfd pid lines cols t (open_session k mfd pid lines cols t)
unfolding open_session session_setfg
open_session-IsOpened k mfd pid lines cols t h = record {
  was_free = h;
  entry = get_elem?-set_self t.sessions k _ h.inside;
  others = λ m e. get_elem?-set_ne t.sessions k m _ e;
  foreground = refl;
}

-- `session_init` returns NULL and changes nothing where the table is full or there is no
-- pseudoterminal; else it opens a session in the first free entry and returns that.
pub session_init-IsOpened :
    (openpt : Option ℕ) (pid lines cols : ℕ) (t : Table)
    → ((session_init openpt pid lines cols t ≡ (none, t)) × (IsFull t.sessions ⊎ (openpt ≡ none)))
      ⊎ ((k mfd : ℕ) × (openpt ≡ some mfd)
          × ((session_init openpt pid lines cols t).0 ≡ some k)
          × IsOpened k mfd pid lines cols t (session_init openpt pid lines cols t).1)
unfolding session_init start_session
session_init-IsOpened none pid lines cols t = elim (free_entry_lem t.sessions 0) [
  | inl (e, full) ↦ rw e (inl (refl, inl full))
  | inr (k, e, f) ↦ rw e (inl (refl, inr refl))
]
session_init-IsOpened (some mfd) pid lines cols t = elim (free_entry_lem t.sessions 0) [
  | inl (e, full) ↦ rw e (inl (refl, inl full))
  | inr (k, e, f) ↦
      rw (e ∙ zero_add k) (inr (k, mfd, refl, refl, open_session-IsOpened k mfd pid lines cols t f))
]
  where
    zero_add : (k : ℕ) → some (0 + k) ≡ some k
    zero_add k = ap some (omega arith)
