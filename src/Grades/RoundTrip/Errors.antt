-- ===== src/Grades/RoundTrip/Errors.antt =====
-- `grades/src/read.c`: a word that is too long, and a normalization that cannot be read back.
use cse.Base.{
  ℕ, suc, ◌+◌, ◌<◌, ◌≤◌, ◌≡◌, inl, inr, refl, ap, ◌∙◌, true, some, List, [], ◌∷◌, ◌++◌, ◌==◌,
  length, All, arith, ltb, codes, Bool-cases, if◌then◌else◌, length-append, ltb→lt, ==_iff,
}
use mathlib.Core.List.{append_assoc}
use cse.Grades.Records.{Floats, Npolicy, Ngroup, Assignment}
use cse.Grades.Read.{
  overrun, done, stop, ◌>>=◌, ret, not_empty, iswhitespace, white, gobblewhitespace, nextchar,
  capacity, store, word_loop, advancetoken,
}
use cse.Grades.Read.Tokens.{string_in, equal, checktoken, skip_line, after_line, expectnewline}
use cse.Grades.Read.Assignments.{norm_option, norm_loop, readnorm, assignment_option}
use cse.Grades.Write.{group_text, policy_text}
use cse.Grades.RoundTrip.{line_char, word_char, ends_token, before}
use cse.Grades.RoundTrip.Words.{
  line_char_cases, word_char_cases, word_loop-word, word-line, advancetoken-word,
}
use cse.Grades.RoundTrip.People.{IsShown}

-- Reading on after 63 characters writes past the buffer.
word_loop-long :
    (token w k : List ℕ)
    → All (λ c. word_char c ≡ true) w
    → length token ≤ 64
    → 64 < length token + length w
    → word_loop token (w ++ k) ≡ stop overrun
unfolding word_loop
word_loop-long token [] k a g h = absurd (omega arith)
word_loop-long token (c ∷ w) k (p, a) g h =
    let (x, y, z, u) = word_char_cases c p in
    elim (Bool-cases (ltb (length token) capacity)) [
      | inl e ↦
          rw (x, y, z, e)
            (word_loop-long (token ++ (c ∷ [])) w k a
              (let l = ltb→lt (length token) capacity e in
                omega (arith, length-append token (c ∷ [])))
              (omega (arith, length-append token (c ∷ []))))
      | inr e ↦ rw (x, y, z, e) refl
    ]

store-full : (t : List ℕ) (c : ℕ) → 64 ≤ length t → store t c ≡ stop overrun
unfolding store
store-full t c h = ground arith

filled_one : (w : List ℕ) → 1 ≤ length w → not_empty w ≡ true
filled_one [] h = absurd (omega arith)
filled_one (c ∷ w) h = refl

white-long :
    (w k : List ℕ) → All (λ c. word_char c ≡ true) w → 1 ≤ length w → white (w ++ k) ≡ w ++ k
unfolding white
white-long [] k a h = absurd (omega arith)
white-long (c ∷ w) k (p, a) h = let (x, y, z, u) = word_char_cases c p in rw (z, x) refl

advancetoken-long :
    (n : ℕ) (w k : List ℕ) (line warnings : ℕ)
    → All (λ c. word_char c ≡ true) w
    → 64 ≤ length w
    → ends_token k ≡ true
    → advancetoken (before n (w ++ k) line warnings) ≡ stop overrun
unfolding advancetoken gobblewhitespace
advancetoken-long n w k line warnings a h e = elim (Bool-cases (length w == 64)) [
  | inl g ↦
      let g1 = (==_iff (length w) 64).0 g in
      rw
        (
          white-long w k a (omega arith),
          word_loop-word [] w k a (omega arith) e,
          filled_one w (omega arith),
          store-full w 0 h,
        )
        refl
  | inr g ↦
      rw (white-long w k a (omega arith), word_loop-long [] w k a (omega arith) (ground arith)) refl
]

-- With no token in the buffer, on a word that is not empty and ends with white space, a line end
-- or the end of the file, advancetoken puts the word and a NUL into the buffer where the word has
-- fewer than 64 bytes, and writes past the buffer otherwise.
pub advancetoken-bounds :
    (n : ℕ) (w k : List ℕ) (line warnings : ℕ)
    → All (λ c. word_char c ≡ true) w
    → 1 ≤ length w
    → ends_token k ≡ true
    → advancetoken (before n (w ++ k) line warnings) ≡ (
        if ltb (length w) 64
        then done (tt, record (before n k line warnings) { token = w ++ (0 ∷ []) })
        else stop overrun)
advancetoken-bounds n w k line warnings a h e = elim (Bool-cases (ltb (length w) 64)) [
  | inl g ↦ rw (g) (
      advancetoken-word n (w ++ k) w k line warnings
        (record { chars = a; filled = filled_one w h; short = ltb→lt (length w) 64 g }) e
        (white-long w k a h))
  | inr g ↦ rw (g) (advancetoken-long n w k line warnings a (ground arith) e)
]

module _ {F : Type 0} (fl : Floats F) (n : ℕ) where
  skip_line-past :
      (s k : List ℕ) → All (λ c. line_char c ≡ true) s → skip_line (s ++ k) ≡ skip_line k
  unfolding skip_line
  skip_line-past [] k h = refl
  skip_line-past (c ∷ s) k (p, h) =
      let (x, y, z) = line_char_cases c p in rw (x, y) (skip_line-past s k h)

  skip_line-group : (g : Ngroup) (k : List ℕ) → skip_line (group_text g ++ k) ≡ some k
  unfolding skip_line
  skip_line-group Ngroup.byclass k = refl
  skip_line-group Ngroup.bysection k = refl

  -- What is after LINEAR on its line.
  skip_line-linear :
      (s t k : List ℕ) (g : Ngroup)
      → All (λ c. line_char c ≡ true) s
      → All (λ c. line_char c ≡ true) t
      → skip_line (58 ∷ 32 ∷ (s ++ 44 ∷ 32 ∷ (t ++ (group_text g ++ k)))) ≡ some k
  unfolding skip_line
  skip_line-linear s t k g h i =
      skip_line-past s (44 ∷ 32 ∷ (t ++ (group_text g ++ k))) h
      ∙ skip_line-past t (group_text g ++ k) i
      ∙ skip_line-group g k

  linear_text :
      (a : Assignment F) (k : List ℕ)
      → policy_text fl a Npolicy.linear ++ k
        ≡ codes "  NORMALIZE LINEAR: "
          ++ (fl.show a.mean ++ 44 ∷ 32 ∷ (fl.show a.stddev ++ (group_text a.ngroup ++ k)))
  linear_text a k = simp (append_assoc)

  no_linear :
      (fuel : ℕ) (b : Assignment F) (r : List ℕ) (line warnings : ℕ)
      → assignment_option fl
          (suc fuel)
          b
          (before n (codes "  NORMALIZE LINEAR: " ++ r) line warnings)
        ≡ (after_line (skip_line (58 ∷ 32 ∷ r)) >>= λ _.
              ret (some (record b { npolicy = Npolicy.raw; ngroup = Ngroup.byclass })))
            (record (before n (58 ∷ 32 ∷ r) line warnings) { errors = n + 1 + 1 })
  unfolding assignment_option readnorm norm_loop norm_option checktoken advancetoken
      gobblewhitespace white word_loop store string_in equal iswhitespace expectnewline nextchar
  no_linear fuel b r line warnings = refl

  -- The line that writeassignment writes for a LINEAR normalization, with numbers that are
  -- words, is read as RAW by class with two errors, and its rest is skipped.
  pub linear-read :
      (fuel : ℕ) (a b : Assignment F) (k : List ℕ) (line warnings : ℕ)
      → a.npolicy ≡ Npolicy.linear
      → IsShown fl a.mean
      → IsShown fl a.stddev
      → assignment_option fl (suc fuel) b (before n (policy_text fl a a.npolicy ++ k) line warnings)
        ≡ done (
          some (record b { npolicy = Npolicy.raw; ngroup = Ngroup.byclass }),
          record (before n k (line + 1) warnings) { errors = n + 1 + 1 },
        )
  linear-read fuel a b k line warnings e h g =
      let r = fl.show a.mean ++ 44 ∷ 32 ∷ (fl.show a.stddev ++ (group_text a.ngroup ++ k)) in
      ap (λ t. assignment_option fl (suc fuel) b (before n t line warnings))
        (ap (λ p. policy_text fl a p ++ k) e ∙ linear_text a k)
      ∙ no_linear fuel b r line warnings
      ∙ ap
          (λ o.
            (after_line o >>= λ _.
            ret (some (record b { npolicy = Npolicy.raw; ngroup = Ngroup.byclass })))
              (record (before n (58 ∷ 32 ∷ r) line warnings) { errors = n + 1 + 1 }))
          (skip_line-linear (fl.show a.mean) (fl.show a.stddev) k a.ngroup
            (word-line (fl.show a.mean) h.word.chars) (word-line (fl.show a.stddev) g.word.chars))
