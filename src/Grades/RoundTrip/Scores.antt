-- ===== src/Grades/RoundTrip/Scores.antt =====
-- `grades/src/read.c`: the scores of a written student.
use cse.Base.{
  ℕ, zero, suc, ◌+◌, ◌<◌, ◌≡◌, refl, sym, ◌∙◌, true, some, List, [], ◌∷◌, ◌++◌, length, All, arith,
  codes,
}
use mathlib.Core.Path.{subst}
use mathlib.Core.List.{append_assoc}
use cse.Grades.Records.{Floats, Assignment, Score}
use cse.Grades.Read.{
  done, ◌>>◌, ret, iswhitespace, white, gobblewhitespace, blank_lines, store, word_loop,
  advancetoken,
}
use cse.Grades.Read.Tokens.{string_in, equal, load, checktoken, expectnewline}
use cse.Grades.Read.Sections.{readgrade, find_assignment, score_assignment, read_score, readscores}
use cse.Grades.Write.{texts, grade_text, writescore}
use cse.Grades.RoundTrip.{
  IsWord, ends_token, Reads, Reads-bind, Reads-from, Reads-cons, before, held, Follows,
}
use cse.Grades.RoundTrip.Words.{
  string_in-line, word-line, white-word, advancetoken-word, istoken-word, expectnewline-quiet,
  checktoken-held, checktoken-before,
}
use cse.Grades.RoundTrip.Grade.{
  Grade, given, raw_of, like_avg, class_avg, IsGrade, make_score, readgrade-write,
}

score_text :
    (name g k : List ℕ)
    → (codes "   SCORE " ++ name ++ g ++ codes "\n") ++ k
      ≡ codes "   SCORE " ++ (name ++ (g ++ 10 ∷ k))
score_text name g k = simp (append_assoc)

-- Fewer keywords.
pub weaken : {n : ℕ} {k : List ℕ} {keys : List (List ℕ)} → Follows n k keys → Follows n k []
weaken f = record { quiet = f.quiet; loads = f.loads; again = f.again; others = tt }

pub drop_key :
    {n : ℕ} {k key : List ℕ} {keys : List (List ℕ)} → Follows n k (key ∷ keys) → Follows n k keys
drop_key f = record { quiet = f.quiet; loads = f.loads; again = f.again; others = f.others.1 }

-- A score as the reader makes it, for an assignment that its name finds.
pub record IsScore {F : Type 0} (fl : Floats F) (newscore : Score F) (asgts : List (Assignment F))
    (s : Score F) : Type 0 where
  pub grade : Grade F
  pub grade_shown : IsGrade fl newscore grade
  pub word : IsWord s.asgt.name
  pub found : find_assignment fl asgts s.asgt.name ≡ some s.asgt
  pub made : s ≡ make_score fl newscore s.asgt grade

-- A list of scores, and the text after it.
abbrev pub scores_text : {F : Type 0} → Floats F → List (Score F) → List ℕ → List ℕ
scores_text fl ss k = texts (writescore fl) ss ++ k

module _ {F : Type 0} (fl : Floats F) (newscore : Score F) (asgts : List (Assignment F))
    (n : ℕ) where
  ends-grade_text :
      (a : Assignment F) (g : Grade F) (k : List ℕ)
      → ends_token
          (grade_text fl (make_score fl newscore a g) (make_score fl newscore a g).flag ++ 10 ∷ k)
        ≡ true
  unfolding iswhitespace
  ends-grade_text a (given x) k = refl
  ends-grade_text a (raw_of x code) k = refl
  ends-grade_text a (like_avg code) k = refl
  ends-grade_text a (class_avg code) k = refl

  -- The assignment of a score.
  load-name :
      (name r : List ℕ) (line warnings : ℕ)
      → IsWord name
      → ends_token r ≡ true
      → load (before n (32 ∷ (name ++ r)) line warnings)
        ≡ done (tt, record (before n r line warnings) { token = name ++ (0 ∷ []) })
  unfolding white iswhitespace
  load-name name r line warnings w e =
      advancetoken-word n (32 ∷ (name ++ r)) name r line warnings w e (white-word name r w)

  score_assignment-word :
      (a : Assignment F) (r : List ℕ) (line warnings : ℕ)
      → IsWord a.name
      → find_assignment fl asgts a.name ≡ some a
      → score_assignment fl asgts (record (before n r line warnings) { token = a.name ++ (0 ∷ []) })
        ≡ done (a, before n r line warnings)
  score_assignment-word a r line warnings w f =
      rw (istoken-word n a.name, string_in-line a.name (word-line a.name w.chars), f) refl

  read_score-made :
      (a : Assignment F) (g : Grade F) (k : List ℕ) (line warnings : ℕ)
      → IsGrade fl newscore g
      → IsWord a.name
      → find_assignment fl asgts a.name ≡ some a
      → ((l : ℕ) → blank_lines (suc (length k)) k l ≡ done (k, l))
      → Reads
          (read_score fl newscore asgts)
          (before n
            (32
              ∷ (a.name
                  ++ (grade_text fl (make_score fl newscore a g) (make_score fl newscore a g).flag
                      ++ 10 ∷ k)))
            line
            warnings)
          (make_score fl newscore a g)
          (before n k)
  read_score-made a g k line warnings h w f q =
      let t = make_score fl newscore a g in
      let r = grade_text fl t t.flag ++ 10 ∷ k in
      rw
        (
          load-name a.name r line warnings w (ends-grade_text a g k),
          score_assignment-word a r line warnings w f,
        )
        (Reads-bind (readgrade fl (record newscore { asgt = a })) (λ u. expectnewline >> ret u)
          (before n r line warnings) (readgrade-write fl newscore n a g k line warnings h)
          (λ l v. (l + 1, v, rw (expectnewline-quiet n k l v (q (l + 1))) refl)))

  read_score-write :
      (s : Score F) (k : List ℕ) (line warnings : ℕ)
      → IsScore fl newscore asgts s
      → ((l : ℕ) → blank_lines (suc (length k)) k l ≡ done (k, l))
      → Reads
          (read_score fl newscore asgts)
          (before n (32 ∷ (s.asgt.name ++ (grade_text fl s s.flag ++ 10 ∷ k))) line warnings)
          s
          (before n k)
  read_score-write s k line warnings h q =
      subst
        (λ t.
          Reads (read_score fl newscore asgts)
            (before n (32 ∷ (s.asgt.name ++ (grade_text fl t t.flag ++ 10 ∷ k))) line warnings) t
            (before n k))
        (sym h.made) (read_score-made s.asgt h.grade k line warnings h.grade_shown h.word h.found q)

  score_key :
      (r : List ℕ) (line warnings : ℕ)
      → checktoken (codes "SCORE") (held n (codes "   SCORE " ++ r) line warnings)
        ≡ done (true, before n (32 ∷ r) line warnings)
  unfolding checktoken white word_loop string_in equal iswhitespace
  score_key r line warnings = refl

  pub starts_score : (r : List ℕ) → Follows n (codes "   SCORE " ++ r) []
  unfolding advancetoken gobblewhitespace white word_loop store iswhitespace blank_lines
  starts_score r = record {
    quiet = λ l. refl;
    loads = λ l v. refl;
    again = λ l v. refl;
    others = tt;
  }

  scores_text-cons :
      (s : Score F) (ss : List (Score F)) (k : List ℕ)
      → scores_text fl (s ∷ ss) k
        ≡ codes "   SCORE " ++ (s.asgt.name ++ (grade_text fl s s.flag ++ 10 ∷ scores_text fl ss k))
  unfolding writescore
  scores_text-cons s ss k =
      append_assoc (writescore fl s) (texts (writescore fl) ss) k
      ∙ score_text s.asgt.name (grade_text fl s s.flag) (scores_text fl ss k)

  pub starts_scores :
      {keys : List (List ℕ)} (ss : List (Score F)) (k : List ℕ)
      → Follows n k keys
      → Follows n (scores_text fl ss k) []
  starts_scores [] k f = weaken f
  starts_scores (s ∷ ss) k f = rw (scores_text-cons s ss k) (starts_score _)

  pub readscores-before :
      {keys : List (List ℕ)} (fuel : ℕ) (k : List ℕ) (line warnings : ℕ)
      → Follows n k keys
      → readscores fl newscore fuel asgts (before n k line warnings)
        ≡ readscores fl newscore fuel asgts (held n k line warnings)
  unfolding readscores
  readscores-before zero k line warnings f = refl
  readscores-before (suc fuel) k line warnings f =
      rw (checktoken-before n k (codes "SCORE") line warnings f) refl

  pub readscores-write :
      {keys : List (List ℕ)} (ss : List (Score F)) (fuel : ℕ) (k : List ℕ) (line warnings : ℕ)
      → All (IsScore fl newscore asgts) ss
      → length ss < fuel
      → Follows n k (codes "SCORE" ∷ keys)
      → Reads
          (readscores fl newscore fuel asgts)
          (held n (scores_text fl ss k) line warnings)
          ss
          (held n k)
  unfolding readscores
  readscores-write ss zero k line warnings h e f = absurd (omega arith)
  readscores-write [] (suc fuel) k line warnings h e f = (
    line,
    warnings,
    rw (checktoken-held n k (codes "SCORE") line warnings (f.again line warnings) f.others.0) refl,
  )
  readscores-write (s ∷ ss) (suc fuel) k line warnings (p, h) e f =
      rw
        (
          scores_text-cons s ss k,
          score_key (s.asgt.name ++ (grade_text fl s s.flag ++ 10 ∷ scores_text fl ss k)) line
              warnings,
        )
        (Reads-cons (read_score fl newscore asgts) (readscores fl newscore fuel asgts)
          (before n (32 ∷ (s.asgt.name ++ (grade_text fl s s.flag ++ 10 ∷ scores_text fl ss k)))
            line warnings)
          (read_score-write s (scores_text fl ss k) line warnings p (starts_scores ss k f).quiet)
          (λ l v.
            Reads-from (readscores fl newscore fuel asgts) (before n (scores_text fl ss k) l v)
              (held n (scores_text fl ss k) l v)
              (readscores-before fuel (scores_text fl ss k) l v (starts_scores ss k f))
              (readscores-write ss fuel k l v h (omega arith) f)))
