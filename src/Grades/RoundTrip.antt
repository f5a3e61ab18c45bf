-- ===== src/Grades/RoundTrip.antt =====
-- Reading what `grades/src/write.c` writes: the texts that can be read back, and the states the reader
-- passes.
pub mod Words
pub mod People
pub mod Grade
pub mod Scores
pub mod Students
pub mod Sections
pub mod Options
pub mod Lines
pub mod Assignments
pub mod Course
pub mod Length
pub mod File
pub mod Errors
mod Tests
use cse.Base.{
  ℕ, zero, suc, ◌+◌, ◌<◌, ◌≡◌, refl, ap, ◌∙◌, Bool, true, false, not, ◌&&◌, ◌||◌, List, [], ◌∷◌,
  ◌++◌, ◌==◌, length, get_or, All,
}
use cse.Grades.Read.{
  Outcome, done, stop, Reader, Read, carry, ◌>>=◌, ret, not_empty, iswhitespace, white, blank_lines,
  word_loop, eof,
}
use cse.Grades.Read.Tokens.{load, is_key}

abbrev pub line_char : ℕ → Bool
line_char c = not (c == eof) && not (c == 10) && not (c == 0)

abbrev pub word_char : ℕ → Bool
word_char c = line_char c && not (iswhitespace c)

-- An identifier: it is not empty, fits the buffer, and has no white space.
pub record IsWord (w : List ℕ) : Type 0 where
  pub chars : All (λ c. word_char c ≡ true) w
  pub filled : not_empty w ≡ true
  pub short : length w < 64

-- A name: it fits the buffer and does not begin with white space.
pub record IsLine (t : List ℕ) : Type 0 where
  pub chars : All (λ c. line_char c ≡ true) t
  pub begins : iswhitespace (get_or t 0 10) ≡ false
  pub short : length t < 64

-- What ends a token.
abbrev pub ends_token : List ℕ → Bool
ends_token [] = true
ends_token (d ∷ k) = not (d == eof) && (iswhitespace d || (d == 10))

-- The first token of a text, with its NUL, and what is after it.
abbrev pub lead_of : Outcome (List ℕ × List ℕ) → List ℕ × List ℕ
lead_of (done x) = (elim x.0 [ [] ↦ [] | c ∷ t ↦ c ∷ t ++ 0 ∷ [] ], x.1)
lead_of (stop e) = ([], [])

abbrev pub lead : List ℕ → List ℕ × List ℕ
lead k = lead_of (word_loop [] (white k))

-- A reader that has read `m` with this value, and its state up to the line and the warnings.
abbrev pub Reads : {A : Type 0} → Read A → Reader → A → (ℕ → ℕ → Reader) → Type 0
Reads m s a form = (line : ℕ) × (warnings : ℕ) × (m s ≡ done (a, form line warnings))

pub Reads-bind :
    {A B : Type 0} (m : Read A) (k : A → Read B) (s : Reader) {a : A} {b : B} {f g : ℕ → ℕ → Reader}
    → Reads m s a f
    → ((line warnings : ℕ) → Reads (k a) (f line warnings) b g)
    → Reads (m >>= k) s b g
Reads-bind m k s (l, v, e) h = let (l2, v2, e2) = h l v in (l2, v2, ap (λ o. carry o k) e ∙ e2)

-- From another state, where the reader does the same.
pub Reads-from :
    {A : Type 0} (m : Read A) (s t : Reader) {a : A} {f : ℕ → ℕ → Reader}
    → m s ≡ m t
    → Reads m t a f
    → Reads m s a f
Reads-from m s t p (l, v, e) = (l, v, p ∙ e)

-- An element and the elements after it.
pub Reads-cons :
    {A : Type 0} (m : Read A) (r : Read (List A)) (s : Reader) {a : A} {rest : List A}
    {f g : ℕ → ℕ → Reader}
    → Reads m s a f
    → ((line warnings : ℕ) → Reads r (f line warnings) rest g)
    → Reads (m >>= λ x. r >>= λ xs. ret (x ∷ xs)) s (a ∷ rest) g
Reads-cons m r s h i =
    Reads-bind m (λ x. r >>= λ xs. ret (x ∷ xs)) s h
      (λ l v. Reads-bind r (λ xs. ret (_ ∷ xs)) _ (i l v) (λ l2 v2. (l2, v2, refl)))

module _ (n : ℕ) where
  -- Nothing is read ahead of a text, in the only file, after n errors.
  abbrev pub before : List ℕ → ℕ → ℕ → Reader
  before k line warnings = record {
    token = [];
    fd = k;
    line = line;
    prev = [];
    errors = n;
    warnings = warnings;
  }

  -- The first token of a text is read ahead.
  abbrev pub held : List ℕ → ℕ → ℕ → Reader
  held k line warnings = record {
    token = (lead k).0;
    fd = (lead k).1;
    line = line;
    prev = [];
    errors = n;
    warnings = warnings;
  }

  -- A text that may stand after a line, and whose first token is none of the keywords.
  pub record Follows (k : List ℕ) (keys : List (List ℕ)) : Type 0 where
    pub quiet : (line : ℕ) → blank_lines (suc (length k)) k line ≡ done (k, line)
    pub loads :
        (line warnings : ℕ) → load (before k line warnings) ≡ done (tt, held k line warnings)
    pub again : (line warnings : ℕ) → load (held k line warnings) ≡ done (tt, held k line warnings)
    pub others : All (λ key. is_key key (held k 0 0) ≡ false) keys
