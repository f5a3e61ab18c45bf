-- ===== src/Grades/RoundTrip/Students.antt =====
-- `grades/src/read.c`: the students of a written section.
use cse.Base.{
  ℕ, zero, suc, ◌+◌, ◌<◌, ◌≤◌, ◌≡◌, refl, ◌∙◌, true, List, [], ◌∷◌, ◌++◌, length, All, arith, codes,
}
use mathlib.Core.List.{append_assoc}
use cse.Grades.Records.{Floats, Assignment, Score, Student}
use cse.Grades.Read.{
  done, ret, iswhitespace, white, gobblewhitespace, blank_lines, store, word_loop, advancetoken,
}
use cse.Grades.Read.Tokens.{string_in, equal, checktoken, readid}
use cse.Grades.Read.Sections.{readscores, read_student, readstudents}
use cse.Grades.Write.{texts, writescore, writestudent}
use cse.Grades.RoundTrip.{IsWord, Reads, Reads-bind, Reads-cons, before, held, Follows}
use cse.Grades.RoundTrip.Words.{white-word, readid-word, checktoken-held, checktoken-before}
use cse.Grades.RoundTrip.People.{IsPerson, surname_lem, name_lem}
use cse.Grades.RoundTrip.Scores.{
  IsScore, scores_text, starts_scores, readscores-before, readscores-write,
}

student_text :
    (id surname name scores k : List ℕ)
    → (codes "  STUDENT "
          ++ id
          ++ codes " "
          ++ surname
          ++ codes ", "
          ++ name
          ++ codes "\n"
          ++ scores)
        ++ k
      ≡ codes "  STUDENT " ++ (id ++ 32 ∷ (surname ++ 44 ∷ 32 ∷ (name ++ 10 ∷ (scores ++ k))))
student_text id surname name scores k = simp (append_assoc)

pub record IsStudent {F : Type 0} (fl : Floats F) (newscore : Score F) (asgts : List (Assignment F))
    (s : Student F) : Type 0 where
  pub id_word : IsWord s.id
  pub person : IsPerson s.surname s.name
  pub scores : All (IsScore fl newscore asgts) s.rawscores

-- Fuel for a list of students.
abbrev pub roster_fuel : {F : Type 0} → List (Student F) → ℕ
roster_fuel [] = 1
roster_fuel (s ∷ ss) = suc (length s.rawscores) + roster_fuel ss

pub roster_fuel_positive : {F : Type 0} (ss : List (Student F)) → 1 ≤ roster_fuel ss
roster_fuel_positive [] = omega arith
roster_fuel_positive (s ∷ ss) = omega arith

module _ {F : Type 0} (fl : Floats F) where
  -- A list of students, and the text after it.
  abbrev pub roster_text : List (Student F) → List ℕ → List ℕ
  roster_text ss k = texts (writestudent fl) ss ++ k

  -- The line of a student, after the keyword, and what is after it.
  abbrev student_rest : Student F → List ℕ → List ℕ
  student_rest s k =
      s.id ++ 32 ∷ (s.surname ++ 44 ∷ 32 ∷ (s.name ++ 10 ∷ scores_text fl s.rawscores k))

module _ {F : Type 0} (fl : Floats F) (newscore : Score F) (asgts : List (Assignment F))
    (n : ℕ) where
  roster_text-cons :
      (s : Student F) (ss : List (Student F)) (k : List ℕ)
      → roster_text fl (s ∷ ss) k ≡ codes "  STUDENT " ++ student_rest fl s (roster_text fl ss k)
  unfolding writestudent
  roster_text-cons s ss k =
      append_assoc (writestudent fl s) (texts (writestudent fl) ss) k
      ∙ student_text s.id s.surname s.name (texts (writescore fl) s.rawscores) (roster_text fl ss k)

  student_key :
      (r : List ℕ) (line warnings : ℕ)
      → checktoken (codes "STUDENT") (held n (codes "  STUDENT " ++ r) line warnings)
        ≡ done (true, before n (32 ∷ r) line warnings)
  unfolding checktoken white word_loop string_in equal iswhitespace
  student_key r line warnings = refl

  starts_student :
      (r : List ℕ) → Follows n (codes "  STUDENT " ++ r) (codes "SCORE" ∷ codes "ASSISTANT" ∷ [])
  unfolding advancetoken gobblewhitespace white word_loop store iswhitespace blank_lines string_in
      equal
  starts_student r = record {
    quiet = λ l. refl;
    loads = λ l v. refl;
    again = λ l v. refl;
    others = (refl, (refl, tt));
  }

  pub starts_roster :
      {keys : List (List ℕ)} (ss : List (Student F)) (k : List ℕ)
      → Follows n k (codes "SCORE" ∷ codes "ASSISTANT" ∷ keys)
      → Follows n (roster_text fl ss k) (codes "SCORE" ∷ codes "ASSISTANT" ∷ [])
  starts_roster [] k f = record {
    quiet = f.quiet;
    loads = f.loads;
    again = f.again;
    others = (f.others.0, (f.others.1.0, tt));
  }
  starts_roster (s ∷ ss) k f = rw (roster_text-cons s ss k) (starts_student _)

  readid-student :
      (id r : List ℕ) (line warnings : ℕ)
      → IsWord id
      → readid (before n (32 ∷ (id ++ 32 ∷ r)) line warnings)
        ≡ done (id, before n (32 ∷ r) line warnings)
  unfolding white iswhitespace
  readid-student id r line warnings h =
      readid-word n _ id (32 ∷ r) line warnings h refl (white-word id (32 ∷ r) h)

  read_student-write :
      {keys : List (List ℕ)} (s : Student F) (fuel : ℕ) (k : List ℕ) (line warnings : ℕ)
      → IsStudent fl newscore asgts s
      → length s.rawscores < fuel
      → Follows n k (codes "SCORE" ∷ keys)
      → Reads
          (read_student fl newscore fuel asgts)
          (before n (32 ∷ student_rest fl s k) line warnings)
          s
          (held n k)
  read_student-write s fuel k line warnings h e f =
      let t = scores_text fl s.rawscores k in
      let g = starts_scores fl newscore asgts n s.rawscores k f in
      rw
        (
          readid-student s.id (s.surname ++ 44 ∷ 32 ∷ (s.name ++ 10 ∷ t)) line warnings h.id_word,
          surname_lem n s.surname s.name t line warnings h.person,
          name_lem n s.name t line warnings h.person.name_line g.quiet,
          readscores-before fl newscore asgts n fuel t (line + 1) warnings g,
        )
        (Reads-bind (readscores fl newscore fuel asgts)
          (λ rs. ret (record { id = s.id; surname = s.surname; name = s.name; rawscores = rs }))
          (held n t (line + 1) warnings)
          (readscores-write fl newscore asgts n s.rawscores fuel k (line + 1) warnings h.scores e f)
          (λ l v. (l, v, refl)))

  pub readstudents-before :
      {keys : List (List ℕ)} (fuel : ℕ) (k : List ℕ) (line warnings : ℕ)
      → Follows n k keys
      → readstudents fl newscore fuel asgts (before n k line warnings)
        ≡ readstudents fl newscore fuel asgts (held n k line warnings)
  unfolding readstudents
  readstudents-before zero k line warnings f = refl
  readstudents-before (suc fuel) k line warnings f =
      rw (checktoken-before n k (codes "STUDENT") line warnings f) refl

  pub readstudents-write :
      {keys : List (List ℕ)} (ss : List (Student F)) (fuel : ℕ) (k : List ℕ) (line warnings : ℕ)
      → All (IsStudent fl newscore asgts) ss
      → roster_fuel ss ≤ fuel
      → Follows n k (codes "SCORE" ∷ codes "ASSISTANT" ∷ codes "STUDENT" ∷ keys)
      → Reads
          (readstudents fl newscore fuel asgts)
          (held n (roster_text fl ss k) line warnings)
          ss
          (held n k)
  unfolding readstudents
  readstudents-write ss zero k line warnings h e f = absurd (omega (arith, roster_fuel_positive ss))
  readstudents-write [] (suc fuel) k line warnings h e f = (
    line,
    warnings,
    rw (checktoken-held n k (codes "STUDENT") line warnings (f.again line warnings) f.others.1.1.0)
        refl,
  )
  readstudents-write (s ∷ ss) (suc fuel) k line warnings (p, h) e f =
      let t = roster_text fl ss k in
      let g = starts_roster ss k f in
      rw (roster_text-cons s ss k, student_key (student_rest fl s t) line warnings)
        (Reads-cons (read_student fl newscore fuel asgts) (readstudents fl newscore fuel asgts)
          (before n (32 ∷ student_rest fl s t) line warnings)
          (read_student-write s fuel t line warnings p (omega (arith, roster_fuel_positive ss)) g)
          (λ l v. readstudents-write ss fuel k l v h (omega arith) f))
