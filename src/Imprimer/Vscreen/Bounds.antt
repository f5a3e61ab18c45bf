-- ===== src/Imprimer/Vscreen/Bounds.antt =====
-- The cursor of a virtual screen stays on it, and its buffers keep their sizes.
use cse.Base.{
  ℕ, zero, suc, ◌+◌, ◌%◌, ◌<◌, ◌≡◌, ◌∙◌, Bool, List, [], ◌∷◌, ◌==◌, ltb, if◌then◌else◌, set, get_or,
  replicate, length, All, length-set, length-replicate, Bool-cases, if_both, inl, inr, arith,
}
use cse.Imprimer.Vscreen.{Vscreen, vscreen_init, put_char, vscreen_putc, put_text}

pub record IsWellFormed (s : Vscreen) : Type 0 where
  pub line_in : s.cur_line < s.num_lines
  pub col_in : s.cur_col < s.num_cols
  pub height : length s.lines ≡ s.num_lines
  pub width : All (λ line. length line ≡ s.num_cols) s.lines
  pub flags : length s.line_changed ≡ s.num_lines

All-replicate : (w n : ℕ) → All (λ (l : List ℕ). length l ≡ w) (replicate n (replicate w 0))
All-replicate w zero = tt
All-replicate w (suc n) = (length-replicate w 0, All-replicate w n)

All-set :
    (w : ℕ) (ls : List (List ℕ)) (i : ℕ) (v : List ℕ)
    → All (λ l. length l ≡ w) ls
    → length v ≡ w
    → All (λ l. length l ≡ w) (set ls i v)
All-set w [] i v h e = tt
All-set w (l ∷ ls) zero v h e = (e, h.1)
All-set w (l ∷ ls) (suc i) v h e = (h.0, All-set w ls i v h.1 e)

All-get_or :
    (w : ℕ) (ls : List (List ℕ)) (i : ℕ)
    → All (λ l. length l ≡ w) ls
    → i < length ls
    → length (get_or ls i []) ≡ w
All-get_or w [] i h p = absurd (omega arith)
All-get_or w (l ∷ ls) zero h p = h.0
All-get_or w (l ∷ ls) (suc i) h p = All-get_or w ls i h.1 (omega arith)

-- A new screen with at least one line and one column is well formed.
pub vscreen_init-IsWellFormed : (n m : ℕ) → 0 < n → 0 < m → IsWellFormed (vscreen_init n m)
unfolding vscreen_init
vscreen_init-IsWellFormed n m hn hm = record {
  line_in = hn;
  col_in = hm;
  height = length-replicate n (replicate m 0);
  width = All-replicate m n;
  flags = length-replicate n 0;
}

next_col-lt : (c n : ℕ) → c < n → (if ltb (c + 1) n then c + 1 else c) < n
next_col-lt c n h = ground arith

pub below-lt : (l n : ℕ) → l < n → (l + 1) % n < n
below-lt l n h = ground arith

module _ (isprint : ℕ → Bool) where
  pub put_char-IsWellFormed :
      (s : Vscreen) (ch : ℕ) → IsWellFormed s → IsWellFormed (put_char isprint s ch).1
  unfolding put_char
  put_char-IsWellFormed s ch h = elim (Bool-cases (isprint ch)) [
    | inl e ↦ rw e (record {
      line_in = h.line_in;
      col_in = next_col-lt _ _ h.col_in;
      height = length-set _ _ _ ∙ h.height;
      width =
          All-set _ _ _ _ h.width
            (length-set _ _ _ ∙ All-get_or _ _ _ h.width (omega (arith, h.line_in, h.height)));
      flags = h.flags;
    })
    | inr e ↦ rw e (elim (Bool-cases (ch == 10)) [
      | inl f ↦ rw f (record {
        line_in = below-lt _ _ h.line_in;
        col_in = h.col_in;
        height = length-set _ _ _ ∙ h.height;
        width = All-set _ _ _ _ h.width (length-replicate _ 0);
        flags = h.flags;
      })
      | inr f ↦ rw f (
          if_both (λ (r : ℕ × Vscreen). IsWellFormed r.1) (ch == 13) _ _
            (record {
              line_in = h.line_in;
              col_in = omega (arith, h.col_in);
              height = h.height;
              width = h.width;
              flags = h.flags;
            })
            h)
    ])
  ]

  pub vscreen_putc-IsWellFormed :
      (s : Vscreen) (ch : ℕ) → IsWellFormed s → IsWellFormed (vscreen_putc isprint s ch)
  unfolding vscreen_putc
  vscreen_putc-IsWellFormed s ch h =
      let k = put_char-IsWellFormed s ch h in
      record {
        line_in = k.line_in;
        col_in = k.col_in;
        height = k.height;
        width = k.width;
        flags = length-set _ _ _ ∙ k.flags;
      }

  -- Output of any bytes to a well-formed screen leaves it well formed: the cursor is on the screen,
  -- and the lines and the flags keep their numbers and widths.
  pub put_text-IsWellFormed :
      (s : Vscreen) (text : List ℕ) → IsWellFormed s → IsWellFormed (put_text isprint s text)
  unfolding put_text
  put_text-IsWellFormed s [] h = h
  put_text-IsWellFormed s (ch ∷ text) h =
      put_text-IsWellFormed (vscreen_putc isprint s ch) text (vscreen_putc-IsWellFormed s ch h)
