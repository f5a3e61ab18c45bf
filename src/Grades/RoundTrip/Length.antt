-- ===== src/Grades/RoundTrip/Length.antt =====
-- `grades/src/write.c`: a written course is longer than its lists.
use cse.Base.{ℕ, suc, ◌≤◌, List, [], ◌∷◌, ◌++◌, length, arith, codes, length-append}
use cse.Grades.Records.{Floats, Assignment, Score, Student, Section, Course}
use cse.Grades.Write.{
  texts, writeprofessor, writeassistant, writescore, writestudent, writesection, writeassignment,
  writecourse,
}
use cse.Grades.RoundTrip.Students.{roster_fuel}
use cse.Grades.RoundTrip.Sections.{sections_fuel}

-- A list whose elements have a text is not longer than the text.
length-texts :
    {A : Type 0} (write : A → List ℕ) (xs : List A)
    → ((x : A) → 1 ≤ length (write x))
    → length xs ≤ length (texts write xs)
length-texts write [] h = omega arith
length-texts write (x ∷ xs) h =
    omega (arith, length-append (write x) (texts write xs), length-texts write xs h, h x)

module _ {F : Type 0} (fl : Floats F) where
  length-writescore : (s : Score F) → 1 ≤ length (writescore fl s)
  unfolding writescore
  length-writescore s = omega arith

  length-writeassignment : (a : Assignment F) → 1 ≤ length (writeassignment fl a)
  unfolding writeassignment
  length-writeassignment a = omega arith

  length-writestudent : (s : Student F) → suc (length s.rawscores) ≤ length (writestudent fl s)
  unfolding writestudent
  length-writestudent s = omega (
    arith,
    length-append
        (codes "  STUDENT " ++ s.id ++ codes " " ++ s.surname ++ codes ", " ++ s.name ++ codes "\n")
        (texts (writescore fl) s.rawscores),
    length-texts (writescore fl) s.rawscores length-writescore,
  )

  length-roster :
      (ss : List (Student F)) → roster_fuel ss ≤ suc (length (texts (writestudent fl) ss))
  length-roster [] = omega arith
  length-roster (s ∷ ss) = omega (
    arith,
    length-append (writestudent fl s) (texts (writestudent fl) ss),
    length-writestudent s,
    length-roster ss,
  )

  length-writesection : (s : Section F) → roster_fuel s.roster ≤ length (writesection fl s)
  unfolding writesection
  length-writesection s = omega (
    arith,
    length-append (codes " SECTION " ++ s.name ++ codes "\n" ++ writeassistant s.assistant)
        (texts (writestudent fl) s.roster),
    length-roster s.roster,
  )

  length-sections :
      (ss : List (Section F)) → sections_fuel ss ≤ suc (length (texts (writesection fl) ss))
  length-sections [] = omega arith
  length-sections (s ∷ ss) = omega (
    arith,
    length-append (writesection fl s) (texts (writesection fl) ss),
    length-writesection s,
    length-sections ss,
  )

  -- The text of a course is fuel for its assignments and its sections.
  pub length-writecourse :
      (c : Course F)
      → (length c.assignments ≤ length (writecourse fl c))
        × (sections_fuel c.sections ≤ length (writecourse fl c))
  unfolding writecourse
  length-writecourse c =
      let head =
        codes "COURSE "
        ++ c.number
        ++ codes " "
        ++ c.title
        ++ codes "\n"
        ++ writeprofessor c.professor in
      let a = texts (writeassignment fl) c.assignments in
      let s = texts (writesection fl) c.sections in
      (
        omega (
          arith,
          length-append (head ++ a) s,
          length-append head a,
          length-texts (writeassignment fl) c.assignments length-writeassignment,
        ),
        omega (arith, length-append (head ++ a) s, length-sections c.sections),
      )
