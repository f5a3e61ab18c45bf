-- ===== src/Imprimer/Vscreen/Refresh.antt =====
-- What `vscreen_sync` may leave unpainted: the flags of changed lines, and the calls they cause.
use cse.Base.{
  ℕ, ◌+◌, ◌%◌, ◌<◌, ◌≡◌, refl, sym, ◌∙◌, ap, Bool, false, List, [], ◌∷◌, ◌==◌, set, get_or,
  replicate, length, Bool-cases, if_both, ==_iff, get_or-set_ne, get_or-set_self, ◌≢◌, arith, inl,
  inr,
}
use cse.Imprimer.Vscreen.{
  Vscreen, wclear, vscreen_sync, vscreen_show, changed_lines, cursor_calls, put_char, vscreen_putc,
  put_text,
}
use cse.Imprimer.Vscreen.Bounds.{IsWellFormed, vscreen_putc-IsWellFormed, below-lt}

-- A line whose flag is 0 afterwards had the flag 0 and the same text before.
abbrev pub Unmarked : ℕ → Vscreen → Vscreen → Type 0
Unmarked l s s' =
    get_or s'.line_changed l 0 ≡ 0
    → (get_or s.line_changed l 0 ≡ 0) × (get_or s'.lines l [] ≡ get_or s.lines l [])

module _ (isprint : ℕ → Bool) where
  -- Only the line that `vscreen_putc` marks is written.
  put_char-other :
      (s : Vscreen) (ch l : ℕ)
      → (put_char isprint s ch).0 ≢ l
      → get_or (put_char isprint s ch).1.lines l [] ≡ get_or s.lines l []
  unfolding put_char
  put_char-other s ch l h =
      if_both P (isprint ch) _ _
        (λ k.
          get_or-set_ne s.lines s.cur_line l (set (get_or s.lines s.cur_line []) s.cur_col ch) [] k)
        (if_both P (ch == 10) _ _
          (λ k.
            get_or-set_ne s.lines ((s.cur_line + 1) % s.num_lines) l (replicate s.num_cols 0) [] k)
          (if_both P (ch == 13) _ _ (λ k. refl) (λ k. refl)))
        h
    where
      P : ℕ × Vscreen → Type 0
      P r = r.0 ≢ l → get_or r.1.lines l [] ≡ get_or s.lines l []

  put_char-flags : (s : Vscreen) (ch : ℕ) → (put_char isprint s ch).1.line_changed ≡ s.line_changed
  unfolding put_char
  put_char-flags s ch =
      if_both P (isprint ch) _ _ refl
        (if_both P (ch == 10) _ _ refl (if_both P (ch == 13) _ _ refl refl))
    where
      P : ℕ × Vscreen → Type 0
      P r = r.1.line_changed ≡ s.line_changed

  put_char-lt :
      (s : Vscreen) (ch : ℕ) → IsWellFormed s → (put_char isprint s ch).0 < length s.line_changed
  unfolding put_char
  put_char-lt s ch h =
      if_both P (isprint ch) _ _ here
        (if_both P (ch == 10) _ _ below (if_both P (ch == 13) _ _ here here))
    where
      P : ℕ × Vscreen → Type 0
      P r = r.0 < length s.line_changed

      here : s.cur_line < length s.line_changed
      here = omega (arith, h.line_in, h.flags)

      below : (s.cur_line + 1) % s.num_lines < length s.line_changed
      below = omega (arith, h.flags, below-lt _ _ h.line_in)

  marked : (s : Vscreen) (ch l : ℕ) → IsWellFormed s → Unmarked l s (vscreen_putc isprint s ch)
  unfolding vscreen_putc
  marked s ch l h e = elim (Bool-cases (done.0 == l)) [
    | inl f ↦ absurd (one (sym ((==_iff done.0 l).0 f)))
    | inr f ↦ (sym (kept (ne f)) ∙ e, put_char-other s ch l (ne f))
  ]
    where
      done : ℕ × Vscreen
      done = put_char isprint s ch

      ne : (done.0 == l) ≡ false → done.0 ≢ l
      ne f g = ground (arith, f)

      kept : done.0 ≢ l → get_or (set done.1.line_changed done.0 1) l 0 ≡ get_or s.line_changed l 0
      kept g =
          get_or-set_ne done.1.line_changed done.0 l 1 0 g
          ∙ ap (λ t. get_or t l 0) (put_char-flags s ch)

      inside : done.0 < length done.1.line_changed
      inside = omega (arith, put_char-lt s ch h, ap length (put_char-flags s ch))

      one : l ≢ done.0
      one f = absurd (
          omega (
            arith,
            e,
            ap (λ t. get_or (set done.1.line_changed done.0 1) t 0) f,
            get_or-set_self done.1.line_changed done.0 1 0 inside,
          ))

  -- After any bytes are put on a well-formed screen, a line whose flag is 0 has the text that it had
  -- before, and its flag was 0 before.
  pub put_text-Unmarked :
      (s : Vscreen) (text : List ℕ) (l : ℕ)
      → IsWellFormed s
      → Unmarked l s (put_text isprint s text)
  unfolding put_text
  put_text-Unmarked s [] l h e = (e, refl)
  put_text-Unmarked s (ch ∷ text) l h e =
      let k =
        put_text-Unmarked (vscreen_putc isprint s ch) text l
          (vscreen_putc-IsWellFormed isprint s ch h) e in
      let j = marked s ch l h k.0 in (j.0, k.1 ∙ j.1)

  changed_lines-changed_lines :
      (s s' : Vscreen) (i j : ℕ) (flags : List ℕ)
      → (changed_lines isprint s' j (changed_lines isprint s i flags).1).0 ≡ []
  unfolding changed_lines
  changed_lines-changed_lines s s' i j [] = refl
  changed_lines-changed_lines s s' i j (flag ∷ flags) =
      let h = changed_lines-changed_lines s s' (i + 1) (j + 1) flags in
      elim (Bool-cases (flag == 0)) [ inl e ↦ rw e (rw e h) | inr e ↦ rw e h ]

  -- Right after `vscreen_sync`, `vscreen_show` clears the physical screen and moves the cursor, and
  -- writes no line, whatever the virtual screen holds.
  pub vscreen_show-vscreen_sync :
      (s : Vscreen) → (vscreen_show isprint (vscreen_sync isprint s).1).0 ≡ wclear ∷ cursor_calls s
  unfolding vscreen_show vscreen_sync cursor_calls
  vscreen_show-vscreen_sync s =
      rw (changed_lines-changed_lines s (vscreen_sync isprint s).1 0 0 s.line_changed)
