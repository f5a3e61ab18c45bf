-- ===== src/Grades/RoundTrip/File.antt =====
-- `grades/src/read.c` and `grades/src/write.c`: a course that was written is read.
use cse.Base.{
  ℕ, ◌+◌, ◌≤◌, ◌≡◌, refl, sym, true, Option, none, some, List, [], ◌∷◌, ◌++◌, length, All, arith,
  codes,
}
use mathlib.Core.Path.{subst}
use mathlib.Core.List.{append_assoc}
use cse.Grades.Records.{Floats, Professor, Assignment, Score, Section, Course}
use cse.Grades.Read.{
  done, Read, ◌>>=◌, ret, iswhitespace, white, gobblewhitespace, blank_lines, gobbleblanklines,
  store, word_loop, advancetoken,
}
use cse.Grades.Read.Tokens.{string_in, equal, checktoken, expecttoken, readid, expecteof}
use cse.Grades.Read.Assignments.{readprofessor, readassignments}
use cse.Grades.Read.Sections.{readsections, readcourse, readfile}
use cse.Grades.Write.{texts, writeprofessor, writesection, writeassignment, writecourse}
use cse.Grades.RoundTrip.{IsWord, IsLine, Reads, Reads-bind, Reads-from, before, held, Follows}
use cse.Grades.RoundTrip.Words.{white-word, readid-word}
use cse.Grades.RoundTrip.People.{IsProfessor, readprofessor-write}
use cse.Grades.RoundTrip.Scores.{weaken, drop_key}
use cse.Grades.RoundTrip.Sections.{
  section_keys, IsSection, sections_fuel, section_name, starts_sections, readsections-write,
}
use cse.Grades.RoundTrip.Lines.{IsAssignment}
use cse.Grades.RoundTrip.Course.{
  assignments_text, starts_assignments, readassignments-before, readassignments-write,
}
use cse.Grades.RoundTrip.Length.{length-writecourse}

course_text :
    (number title p a s : List ℕ)
    → codes "COURSE " ++ number ++ codes " " ++ title ++ codes "\n" ++ p ++ a ++ s
      ≡ codes "COURSE " ++ (number ++ 32 ∷ (title ++ 10 ∷ (p ++ (a ++ s))))
course_text number title p a s = simp (append_assoc)

professor_text :
    (surname name k : List ℕ)
    → (codes " PROFESSOR " ++ surname ++ codes ", " ++ name ++ codes "\n") ++ k
      ≡ codes " PROFESSOR " ++ (surname ++ 44 ∷ 32 ∷ (name ++ 10 ∷ k))
professor_text surname name k = simp (append_assoc)

-- A course that can be read back: identifiers are words, names are lines, numbers are read as they
-- are written, and assignments and scores are as the reader makes them.
pub record IsCourse {F : Type 0} (fl : Floats F) (newscore : Score F) (newassignment : Assignment F)
    (c : Course F) : Type 0 where
  pub number_word : IsWord c.number
  pub title_line : IsLine c.title
  pub professor : IsProfessor c.professor
  pub assignments : All (IsAssignment fl newassignment) c.assignments
  pub sections : All (IsSection fl newscore c.assignments) c.sections

module _ {F : Type 0} (fl : Floats F) (newscore : Score F) (newassignment : Assignment F) (n : ℕ)
    (files : List ℕ → Option (List ℕ)) where
  starts_professor_line : (r : List ℕ) → Follows n (codes " PROFESSOR " ++ r) []
  unfolding advancetoken gobblewhitespace white word_loop store iswhitespace blank_lines
  starts_professor_line r = record {
    quiet = λ l. refl;
    loads = λ l v. refl;
    again = λ l v. refl;
    others = tt;
  }

  starts_professor :
      {keys : List (List ℕ)} (p : Option Professor) (k : List ℕ)
      → Follows n k keys
      → Follows n (writeprofessor p ++ k) []
  unfolding writeprofessor
  starts_professor none k f = weaken f
  starts_professor (some p) k f = rw (professor_text p.surname p.name k) (starts_professor_line _)

  course_key :
      (r : List ℕ) (line warnings : ℕ)
      → expecttoken (codes "COURSE") (before n (codes "COURSE " ++ r) line warnings)
        ≡ done (tt, before n (32 ∷ r) line warnings)
  unfolding expecttoken checktoken advancetoken gobblewhitespace white word_loop store string_in
      equal iswhitespace
  course_key r line warnings = refl

  -- The assignments after the professor, who may not be there.
  assignments-after :
      (p : Option Professor) (xs : List (Assignment F)) (fuel : ℕ) (k : List ℕ) (line warnings : ℕ)
      → fl.is_zero fl.float_zero ≡ true
      → All (IsAssignment fl newassignment) xs
      → length xs + 6 ≤ fuel
      → Follows n k section_keys
      → Reads
          (readassignments fl newassignment fuel)
          (elim p [
            | none ↦ held n (assignments_text fl newassignment xs k) line warnings
            | some q ↦ before n (assignments_text fl newassignment xs k) line warnings
          ])
          xs
          (held n k)
  assignments-after none xs fuel k line warnings z h e f =
      readassignments-write fl newassignment n xs fuel k line warnings z h e f
  assignments-after (some q) xs fuel k line warnings z h e f =
      let t = assignments_text fl newassignment xs k in
      Reads-from (readassignments fl newassignment fuel) (before n t line warnings)
        (held n t line warnings)
        (readassignments-before fl newassignment n fuel t line warnings
          (starts_assignments fl newassignment n xs k z h f))
        (readassignments-write fl newassignment n xs fuel k line warnings z h e f)

  course_head :
      (number title k : List ℕ) (line warnings : ℕ)
      → IsWord number
      → readid (before n (32 ∷ (number ++ 32 ∷ (title ++ 10 ∷ k))) line warnings)
        ≡ done (number, before n (32 ∷ (title ++ 10 ∷ k)) line warnings)
  unfolding white iswhitespace
  course_head number title k line warnings h =
      readid-word n _ number _ line warnings h refl (white-word number _ h)

  course_body :
      (c : Course F) (fuel : ℕ) (line warnings : ℕ)
      → fl.is_zero fl.float_zero ≡ true
      → IsCourse fl newscore newassignment c
      → length c.assignments + 6 ≤ fuel
      → sections_fuel c.sections ≤ fuel
      → Reads
          (do
            professor ← readprofessor
            assignments ← readassignments fl newassignment fuel
            sections ← readsections fl newscore files fuel assignments
            ret (record {
              number = c.number;
              title = c.title;
              professor = professor;
              assignments = assignments;
              sections = sections;
            }))
          (before n
            (writeprofessor c.professor
              ++ assignments_text fl newassignment c.assignments
                  (texts (writesection fl) c.sections))
            line
            warnings)
          c
          (held n [])
  course_body c fuel line warnings z h e g =
      let s = texts (writesection fl) c.sections in
      let t = assignments_text fl newassignment c.assignments s in
      let f = starts_sections fl newscore c.assignments n c.sections in
      let q = starts_assignments fl newassignment n c.assignments s z h.assignments f in
      let course : Option Professor → List (Assignment F) → List (Section F) → Course F = λ p xs ss.
        record {
          number = c.number;
          title = c.title;
          professor = p;
          assignments = xs;
          sections = ss;
        } in
      let put : Option Professor → List (Assignment F) → Read (Course F) =
        λ p xs. readsections fl newscore files fuel xs >>= λ ss. ret (course p xs ss) in
      Reads-bind readprofessor (λ p. readassignments fl newassignment fuel >>= λ xs. put p xs)
        (before n (writeprofessor c.professor ++ t) line warnings)
        (readprofessor-write n c.professor t line warnings h.professor
          (drop_key (drop_key (drop_key q))))
        (λ l v.
          Reads-bind (readassignments fl newassignment fuel) (put c.professor) _
            (assignments-after c.professor c.assignments fuel s l v z h.assignments e f)
            (λ l v.
              Reads-bind (readsections fl newscore files fuel c.assignments)
                (λ ss. ret (course c.professor c.assignments ss)) (held n s l v)
                (readsections-write fl newscore c.assignments n files c.sections fuel l v h.sections
                  g)
                (λ l v. (l, v, refl))))

  readcourse-write :
      (c : Course F) (fuel : ℕ) (line warnings : ℕ)
      → fl.is_zero fl.float_zero ≡ true
      → IsCourse fl newscore newassignment c
      → length c.assignments + 6 ≤ fuel
      → sections_fuel c.sections ≤ fuel
      → Reads
          (readcourse fl newscore files newassignment fuel)
          (before n (writecourse fl c) line warnings)
          c
          (held n [])
  unfolding readcourse writecourse
  readcourse-write c fuel line warnings z h e g =
      let s = texts (writesection fl) c.sections in
      let t = assignments_text fl newassignment c.assignments s in
      let k = writeprofessor c.professor ++ t in
      let f = starts_sections fl newscore c.assignments n c.sections in
      let q =
        starts_professor c.professor t
          (starts_assignments fl newassignment n c.assignments s z h.assignments f) in
      subst
        (λ u.
          Reads (readcourse fl newscore files newassignment fuel) (before n u line warnings) c
            (held n []))
        (sym (
          course_text c.number c.title (writeprofessor c.professor)
            (texts (writeassignment fl) c.assignments) s))
        (rw
          (
            course_key (c.number ++ 32 ∷ (c.title ++ 10 ∷ k)) line warnings,
            course_head c.number c.title k line warnings h.number_word,
            section_name n c.title k line warnings h.title_line q.quiet,
          )
          (course_body c fuel (line + 1) warnings z h e g))

module _ {F : Type 0} (fl : Floats F) (newscore : Score F) (newassignment : Assignment F)
    (files : List ℕ → Option (List ℕ)) where
  quiet-course :
      (c : Course F) (line warnings : ℕ)
      → gobbleblanklines (before 0 (writecourse fl c) line warnings)
        ≡ done (tt, before 0 (writecourse fl c) line warnings)
  unfolding gobbleblanklines blank_lines writecourse
  quiet-course c line warnings = refl

  quiet-end :
      (line warnings : ℕ)
      → gobbleblanklines (held 0 [] line warnings) ≡ done (tt, before 0 [] line warnings)
  unfolding gobbleblanklines blank_lines white word_loop
  quiet-end line warnings = refl

  expecteof-end :
      (line warnings : ℕ)
      → expecteof (before 0 [] line warnings) ≡ done (tt, before 0 [] line warnings)
  unfolding expecteof
  expecteof-end line warnings = refl

  -- For floats whose zero is zero, a course that can be read back (identifiers are words of
  -- fewer than 64 bytes, names are lines of fewer than 64 bytes, the numbers written are read
  -- as themselves, no LINEAR normalization and no USENORM score, scores name an assignment of
  -- the course, fields not written as the reader leaves them), a file with what writecourse
  -- writes, and fuel of six more than its length: readfile ends, gives the course back and
  -- counts no error.
  pub readfile-writecourse :
      (c : Course F) (root : List ℕ) (fuel : ℕ)
      → fl.is_zero fl.float_zero ≡ true
      → IsCourse fl newscore newassignment c
      → files root ≡ some (writecourse fl c)
      → length (writecourse fl c) + 6 ≤ fuel
      → (line : ℕ) × (warnings : ℕ) × (readfile fl newscore files newassignment fuel root
          ≡ done (
            c,
            record { token = []; fd = []; line = line; prev = []; errors = 0; warnings = warnings },
          ))
  unfolding readfile
  readfile-writecourse c root fuel z h e g =
      let m = length-writecourse fl c in
      let (l, v, r) =
        readcourse-write fl newscore newassignment 0 files c fuel 1 0 z h (omega (arith, m.0))
          (omega (arith, m.1)) in
      (l, v, rw (e, quiet-course c 1 0, r, quiet-end l v, expecteof-end l v) refl)
