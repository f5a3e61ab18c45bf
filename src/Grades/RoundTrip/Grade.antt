-- ===== src/Grades/RoundTrip/Grade.antt =====
-- `grades/src/read.c`: the grade of a written score.
use cse.Base.{
  ℕ, ◌+◌, ◌≡◌, inl, inr, refl, sym, true, false, not, ◌&&◌, none, some, List, [], ◌∷◌, ◌++◌, ◌==◌,
  get_or, codes, Bool-cases,
}
use mathlib.Core.Path.{subst}
use mathlib.Core.List.{append_assoc}
use cse.Grades.Records.{Floats, Gflag, Gsubst, Assignment, Score}
use cse.Grades.Read.{
  done, Reader, iswhitespace, white, gobblewhitespace, store, word_loop, advancetoken, advanceeol,
}
use cse.Grades.Read.Tokens.{string_in, equal, load, match_token, checktoken, take_token}
use cse.Grades.Read.Sections.{readsubst, read_raw, readgrade}
use cse.Grades.Write.{grade_text}
use cse.Grades.RoundTrip.{IsLine, ends_token, Reads, before}
use cse.Grades.RoundTrip.Words.{
  string_in-line, word-line, white-word, white-line, advancetoken-word, istoken-word,
  advanceeol-line,
}
use cse.Grades.RoundTrip.People.{IsShown, number_token-shown}

-- What a score says: a number, or a substitute and the reason for it.
pub data Grade (F : Type 0) : Type 0 where
  given : F → Grade F
  raw_of : F → List ℕ → Grade F
  like_avg class_avg : List ℕ → Grade F

-- The keywords that `readgrade` looks for begin with a U.
equal-u : (w key : List ℕ) → (get_or w 0 0 == 85) ≡ false → equal w (85 ∷ key) ≡ false
unfolding equal
equal-u [] key h = refl
equal-u (c ∷ w) key h = rw (h) refl

raw_text :
    (x code k : List ℕ)
    → ((codes " USERAW " ++ x) ++ codes " " ++ code) ++ k
      ≡ codes " USERAW " ++ (x ++ 32 ∷ (code ++ k))
raw_text x code k = simp (append_assoc)

module _ {F : Type 0} (fl : Floats F) (newscore : Score F) where
  abbrev pub IsGrade : Grade F → Type 0
  IsGrade (given x) = IsShown fl x
  IsGrade (raw_of x code) = IsShown fl x × IsLine code
  IsGrade (like_avg code) = IsLine code
  IsGrade (class_avg code) = IsLine code

  -- The score that the reader makes.
  abbrev pub make_score : Assignment F → Grade F → Score F
  make_score a (given x) = record newscore { asgt = a; flag = Gflag.valid; grade = x }
  make_score a (raw_of x code) = record newscore {
    asgt = a;
    flag = Gflag.invalid;
    subst = Gsubst.useraw;
    grade = x;
    code = code;
  }
  make_score a (like_avg code) = record newscore {
    asgt = a;
    flag = Gflag.invalid;
    subst = Gsubst.uselikeavg;
    code = code;
  }
  make_score a (class_avg code) = record newscore {
    asgt = a;
    flag = Gflag.invalid;
    subst = Gsubst.useclassavg;
    code = code;
  }

  module _ (n : ℕ) where
    abbrev holding : F → List ℕ → ℕ → ℕ → Reader
    holding x k line warnings = record (before n k line warnings) { token = fl.show x ++ (0 ∷ []) }

    load-number :
        (x : F) (k : List ℕ) (line warnings : ℕ)
        → IsShown fl x
        → ends_token k ≡ true
        → load (before n (32 ∷ (fl.show x ++ k)) line warnings)
          ≡ done (tt, holding x k line warnings)
    unfolding white iswhitespace
    load-number x k line warnings h e =
        advancetoken-word n _ (fl.show x) k line warnings h.word e (white-word (fl.show x) k h.word)

    load-holding :
        (x : F) (k : List ℕ) (line warnings : ℕ)
        → load (holding x k line warnings) ≡ done (tt, holding x k line warnings)
    load-holding x k line warnings = rw (istoken-word n (fl.show x)) refl

    -- A number is none of the keywords.
    no_key :
        (x : F) (key k : List ℕ) (line warnings : ℕ)
        → IsShown fl x
        → match_token (85 ∷ key) (holding x k line warnings)
          ≡ done (false, holding x k line warnings)
    no_key x key k line warnings h =
        rw
          (
            string_in-line (fl.show x) (word-line (fl.show x) h.word.chars),
            equal-u (fl.show x) key h.begins,
            istoken-word n (fl.show x),
          )
          refl

    check-number :
        (x : F) (key k : List ℕ) (line warnings : ℕ)
        → IsShown fl x
        → checktoken (85 ∷ key) (holding x k line warnings)
          ≡ done (false, holding x k line warnings)
    unfolding checktoken
    check-number x key k line warnings h =
        rw (load-holding x k line warnings, no_key x key k line warnings h) refl

    first-number :
        (x : F) (key k : List ℕ) (line warnings : ℕ)
        → IsShown fl x
        → ends_token k ≡ true
        → checktoken (85 ∷ key) (before n (32 ∷ (fl.show x ++ k)) line warnings)
          ≡ done (false, holding x k line warnings)
    unfolding checktoken
    first-number x key k line warnings h e =
        rw (load-number x k line warnings h e, no_key x key k line warnings h) refl

    readsubst-number :
        (x : F) (k : List ℕ) (line warnings : ℕ)
        → IsShown fl x
        → ends_token k ≡ true
        → readsubst (before n (32 ∷ (fl.show x ++ k)) line warnings)
          ≡ done (none, holding x k line warnings)
    unfolding readsubst
    readsubst-number x k line warnings h e =
        rw
          (
            first-number x (codes "SERAW") k line warnings h e,
            check-number x (codes "SENORM") k line warnings h,
            check-number x (codes "SELIKEAVG") k line warnings h,
            check-number x (codes "SECLASSAVG") k line warnings h,
          )
          refl

    -- The end of `read_raw`: there may be a warning.
    read_raw-number :
        (s : Score F) (x : F) (k : List ℕ) (line warnings : ℕ)
        → IsShown fl x
        → Reads (read_raw fl s) (holding x k line warnings) (record s { grade = x }) (before n k)
    unfolding read_raw
    read_raw-number s x k line warnings h =
        elim (Bool-cases (not (fl.is_zero s.asgt.max) && fl.above x s.asgt.max)) [
          | inl e ↦ (
            line,
            warnings + 1,
            rw (load-holding x k line warnings, number_token-shown fl n x k line warnings h, e)
                refl,
          )
          | inr e ↦ (
            line,
            warnings,
            rw (load-holding x k line warnings, number_token-shown fl n x k line warnings h, e)
                refl,
          )
        ]

    read_raw-before :
        (s : Score F) (x : F) (k : List ℕ) (line warnings : ℕ)
        → IsShown fl x
        → ends_token k ≡ true
        → read_raw fl s (before n (32 ∷ (fl.show x ++ k)) line warnings)
          ≡ read_raw fl s (holding x k line warnings)
    unfolding read_raw
    read_raw-before s x k line warnings h e =
        rw (load-number x k line warnings h e, load-holding x k line warnings) refl

    readsubst-raw :
        (r : List ℕ) (line warnings : ℕ)
        → readsubst (before n (codes " USERAW " ++ r) line warnings)
          ≡ done (some Gsubst.useraw, before n (32 ∷ r) line warnings)
    unfolding readsubst checktoken advancetoken gobblewhitespace white word_loop store string_in
        equal iswhitespace
    readsubst-raw r line warnings = refl

    readsubst-like :
        (r : List ℕ) (line warnings : ℕ)
        → readsubst (before n (codes " USELIKEAVG " ++ r) line warnings)
          ≡ done (some Gsubst.uselikeavg, before n (32 ∷ r) line warnings)
    unfolding readsubst checktoken advancetoken gobblewhitespace white word_loop store string_in
        equal iswhitespace
    readsubst-like r line warnings = refl

    readsubst-class :
        (r : List ℕ) (line warnings : ℕ)
        → readsubst (before n (codes " USECLASSAVG " ++ r) line warnings)
          ≡ done (some Gsubst.useclassavg, before n (32 ∷ r) line warnings)
    unfolding readsubst checktoken advancetoken gobblewhitespace white word_loop store string_in
        equal iswhitespace
    readsubst-class r line warnings = refl

    -- The reason, up to the end of the line.
    advanceeol-code :
        (code k : List ℕ) (line warnings : ℕ)
        → IsLine code
        → advanceeol (before n (32 ∷ (code ++ 10 ∷ k)) line warnings)
          ≡ done (tt, record (before n (10 ∷ k) line warnings) { token = code ++ (0 ∷ []) })
    unfolding white iswhitespace
    advanceeol-code code k line warnings h =
        advanceeol-line n _ code k line warnings h (white-line code k h)

    pub readgrade-write :
        (a : Assignment F) (g : Grade F) (k : List ℕ) (line warnings : ℕ)
        → IsGrade g
        → Reads
            (readgrade fl (record newscore { asgt = a }))
            (before n
              (grade_text fl (make_score a g) (make_score a g).flag ++ 10 ∷ k)
              line
              warnings)
            (make_score a g)
            (before n (10 ∷ k))
    unfolding readgrade take_token iswhitespace
    readgrade-write a (given x) k line warnings h =
        let (l, v, e) =
          read_raw-number (record newscore { asgt = a; flag = Gflag.valid }) x (10 ∷ k) line
            warnings h in
        (l, v, rw (readsubst-number x (10 ∷ k) line warnings h refl, e) refl)
    readgrade-write a (raw_of x code) k line warnings (h, c) =
        let s : Score F = record newscore {
          asgt = a;
          flag = Gflag.invalid;
          subst = Gsubst.useraw;
        } in
        let (l, v, e) = read_raw-number s x (32 ∷ (code ++ 10 ∷ k)) line warnings h in
        subst
          (λ t.
            Reads (readgrade fl (record newscore { asgt = a })) (before n t line warnings)
              (make_score a (raw_of x code)) (before n (10 ∷ k)))
          (sym (raw_text (fl.show x) code (10 ∷ k)))
          (
            l,
            v,
            rw
                (
                  readsubst-raw (fl.show x ++ 32 ∷ (code ++ 10 ∷ k)) line warnings,
                  read_raw-before s x (32 ∷ (code ++ 10 ∷ k)) line warnings h refl,
                  e,
                  advanceeol-code code k l v c,
                  string_in-line code c.chars,
                )
                refl,
          )
    readgrade-write a (like_avg code) k line warnings h = (
      line,
      warnings,
      rw
          (
            readsubst-like (code ++ 10 ∷ k) line warnings,
            advanceeol-code code k line warnings h,
            string_in-line code h.chars,
          )
          refl,
    )
    readgrade-write a (class_avg code) k line warnings h = (
      line,
      warnings,
      rw
          (
            readsubst-class (code ++ 10 ∷ k) line warnings,
            advanceeol-code code k line warnings h,
            string_in-line code h.chars,
          )
          refl,
    )
