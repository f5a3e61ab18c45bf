-- ===== src/Imprimer/Tests.antt =====
-- Runs on a small screen and a small table, and the theorems at concrete inputs.
use cse.Base.{ℕ, ◌≡◌, refl, Bool, Option, none, some, List, ◌∷◌, ◌⊎◌, codes, arith, ltb, ◌&&◌}
use cse.Imprimer.Vscreen.{
  Vscreen, vscreen_init, put_text, vscreen_putc, put_char, vscreen_sync, vscreen_show, wclear,
  cursor_calls,
}
use cse.Imprimer.Vscreen.Bounds.{IsWellFormed, vscreen_init-IsWellFormed, put_text-IsWellFormed}
use cse.Imprimer.Vscreen.Refresh.{Unmarked, put_text-Unmarked, vscreen_show-vscreen_sync}
use cse.Imprimer.Session.{Table, IsFull, IsOpened, empty_table, session_init, session_init-IsOpened}

abbrev ascii : ℕ → Bool
ascii c = ltb 31 c && ltb c 127

abbrev text : List ℕ
text = codes "abc"

abbrev screen : Vscreen
screen = vscreen_init 2 3

screen-IsWellFormed : IsWellFormed screen
screen-IsWellFormed = vscreen_init-IsWellFormed 2 3 (omega arith) (omega arith)

-- The cursor stays in the last column.
last_col : (put_text ascii screen (codes "abcd")).cur_col ≡ 2
unfolding vscreen_init put_text vscreen_putc put_char
last_col = refl

put_text-IsWellFormed_example : IsWellFormed (put_text ascii screen (codes "abcd"))
put_text-IsWellFormed_example =
    put_text-IsWellFormed ascii screen (codes "abcd") screen-IsWellFormed

put_text-Unmarked_example : Unmarked 1 screen (put_text ascii screen (codes "abcd"))
put_text-Unmarked_example = put_text-Unmarked ascii screen (codes "abcd") 1 screen-IsWellFormed

vscreen_show-vscreen_sync_example :
    (vscreen_show ascii (vscreen_sync ascii (put_text ascii screen (codes "abcd"))).1).0
    ≡ wclear ∷ cursor_calls (put_text ascii screen (codes "abcd"))
vscreen_show-vscreen_sync_example =
    vscreen_show-vscreen_sync ascii (put_text ascii screen (codes "abcd"))

abbrev one_session : Table
one_session = (session_init (some 5) 100 2 3 empty_table).1

session_init-IsOpened_example :
    ((session_init (some 6) 101 2 3 one_session ≡ (none, one_session))
      × (IsFull one_session.sessions ⊎ (◌≡◌ {A = Option ℕ} (some 6) none)))
    ⊎ ((k mfd : ℕ) × (◌≡◌ {A = Option ℕ} (some 6) (some mfd))
        × ((session_init (some 6) 101 2 3 one_session).0 ≡ some k)
        × IsOpened k mfd 101 2 3 one_session (session_init (some 6) 101 2 3 one_session).1)
session_init-IsOpened_example = session_init-IsOpened (some 6) 101 2 3 one_session
