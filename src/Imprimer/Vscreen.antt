-- ===== src/Imprimer/Vscreen.antt =====
-- `imprimer/src/vscreen.c`: a virtual screen in memory, and the curses calls that show it.
-- `isprint` is a parameter, and `LINES` and `COLS` are arguments of `vscreen_init`.
pub mod Bounds
pub mod Refresh
use cse.Base.{
  ℕ, zero, suc, ◌+◌, ◌%◌, Bool, true, false, List, [], ◌∷◌, ◌++◌, ◌==◌, ltb, if◌then◌else◌, set,
  get_or, replicate,
}

-- `struct vscreen`. A byte of `line_changed` is 0 or 1.
pub record Vscreen : Type 0 where
  pub num_lines : ℕ
  pub num_cols : ℕ
  pub cur_line : ℕ
  pub cur_col : ℕ
  pub lines : List (List ℕ)
  pub line_changed : List ℕ

unfoldable pub vscreen_init : ℕ → ℕ → Vscreen
vscreen_init num_lines num_cols = record {
  num_lines = num_lines;
  num_cols = num_cols;
  cur_line = 0;
  cur_col = 0;
  lines = replicate num_lines (replicate num_cols 0);
  line_changed = replicate num_lines 0;
}

-- The curses calls on `main_screen`.
pub data Call : Type 0 where
  wclear : Call
  wclrtoeol : Call
  wmove : ℕ → ℕ → Call
  waddch : ℕ → Call
  refresh : Call

unfoldable pub cursor_calls : Vscreen → List Call
cursor_calls s = wmove s.cur_line s.cur_col ∷ refresh ∷ []

module _ (isprint : ℕ → Bool) where
  unfoldable pub char_calls : List ℕ → List Call
  char_calls [] = []
  char_calls (ch ∷ line) =
      let rest = char_calls line in if isprint ch then waddch ch ∷ rest else rest

  unfoldable pub update_line : Vscreen → ℕ → List Call
  update_line s l = wmove l 0 ∷ wclrtoeol ∷ (char_calls (get_or s.lines l []) ++ cursor_calls s)

  -- The loop of `vscreen_sync` and `vscreen_show` over the flags from line l on: the calls, and the
  -- flags it leaves.
  unfoldable pub changed_lines : Vscreen → ℕ → List ℕ → List Call × List ℕ
  changed_lines s l [] = ([], [])
  changed_lines s l (flag ∷ flags) =
      let rest = changed_lines s (l + 1) flags in
      if flag == 0 then (rest.0, flag ∷ rest.1) else (update_line s l ++ rest.0, 0 ∷ rest.1)

  unfoldable pub vscreen_sync : Vscreen → List Call × Vscreen
  vscreen_sync s =
      let done = changed_lines s 0 s.line_changed in
      (done.0 ++ cursor_calls s, record s { line_changed = done.1 })

  unfoldable pub vscreen_show : Vscreen → List Call × Vscreen
  vscreen_show s = let done = vscreen_sync s in (wclear ∷ done.0, done.1)

  -- The line that is written, and the screen before its flag is set.
  unfoldable pub put_char : Vscreen → ℕ → ℕ × Vscreen
  put_char s ch =
      let l = s.cur_line in
      let below = (s.cur_line + 1) % s.num_lines in
      if isprint ch
      then (
        l,
        record s {
          lines = set s.lines l (set (get_or s.lines l []) s.cur_col ch);
          cur_col = if ltb (s.cur_col + 1) s.num_cols then s.cur_col + 1 else s.cur_col;
        },
      )
      else if ch == 10
      then (
        below,
        record s { cur_line = below; lines = set s.lines below (replicate s.num_cols 0) },
      )
      else if ch == 13
      then (l, record s { cur_col = 0 })
      else (l, s)

  unfoldable pub vscreen_putc : Vscreen → ℕ → Vscreen
  vscreen_putc s ch =
      let (l, s') = put_char s ch in record s' { line_changed = set s'.line_changed l 1 }

  -- A run of `vscreen_putc` over the bytes of a text.
  unfoldable pub put_text : Vscreen → List ℕ → Vscreen
  put_text s [] = s
  put_text s (ch ∷ text) = put_text (vscreen_putc s ch) text
