-- ===== src/Grades/RoundTrip/Sections.antt =====
-- `grades/src/read.c`: the sections of a written course.
use cse.Base.{
  ℕ, zero, suc, ◌+◌, ◌≤◌, ◌≡◌, refl, true, false, Option, none, some, List, [], ◌∷◌, ◌++◌, length,
  All, arith, codes,
}
use mathlib.Core.List.{append_assoc}
use cse.Grades.Records.{Floats, Assistant, Assignment, Score, Student, Section}
use cse.Grades.Read.{
  done, ◌>>=◌, ret, iswhitespace, white, gobblewhitespace, blank_lines, store, word_loop,
  advancetoken,
}
use cse.Grades.Read.Tokens.{string_in, equal, checktoken, readname}
use cse.Grades.Read.Assignments.{readassistant}
use cse.Grades.Read.Sections.{token_below, readstudents, read_section, readsections}
use cse.Grades.Write.{texts, writeassistant, writestudent, writesection}
use cse.Grades.RoundTrip.{IsLine, Reads, Reads-bind, Reads-from, Reads-cons, before, held, Follows}
use cse.Grades.RoundTrip.Words.{white-line, readname-line}
use cse.Grades.RoundTrip.People.{IsAssistant, readassistant-write}
use cse.Grades.RoundTrip.Scores.{weaken, drop_key}
use cse.Grades.RoundTrip.Students.{
  IsStudent, roster_fuel, roster_fuel_positive, roster_text, starts_roster, readstudents-before,
  readstudents-write,
}

section_text :
    (name assistant roster k : List ℕ)
    → (codes " SECTION " ++ name ++ codes "\n" ++ assistant ++ roster) ++ k
      ≡ codes " SECTION " ++ (name ++ 10 ∷ (assistant ++ (roster ++ k)))
section_text name assistant roster k = simp (append_assoc)

person_text :
    (surname name k : List ℕ)
    → (codes " ASSISTANT " ++ surname ++ codes ", " ++ name ++ codes "\n") ++ k
      ≡ codes " ASSISTANT " ++ (surname ++ 44 ∷ 32 ∷ (name ++ 10 ∷ k))
person_text surname name k = simp (append_assoc)

-- The keywords that are looked for where a section may stand.
abbrev pub section_keys : List (List ℕ)
section_keys =
    codes "SCORE"
    ∷ codes "ASSISTANT"
    ∷ codes "STUDENT"
    ∷ codes "WEIGHT"
    ∷ codes "NORMALIZE"
    ∷ codes "MAXIMUM"
    ∷ codes "ASSIGNMENT"
    ∷ codes "PROFESSOR"
    ∷ []

pub record IsSection {F : Type 0} (fl : Floats F) (newscore : Score F) (asgts : List (Assignment F))
    (s : Section F) : Type 0 where
  pub name_line : IsLine s.name
  pub assistant : IsAssistant s.assistant
  pub roster : All (IsStudent fl newscore asgts) s.roster

-- Fuel for a list of sections.
abbrev pub sections_fuel : {F : Type 0} → List (Section F) → ℕ
sections_fuel [] = 1
sections_fuel (s ∷ ss) = roster_fuel s.roster + sections_fuel ss

pub sections_fuel_positive : {F : Type 0} (ss : List (Section F)) → 1 ≤ sections_fuel ss
sections_fuel_positive [] = omega arith
sections_fuel_positive (s ∷ ss) = omega (arith, sections_fuel_positive ss)

module _ {F : Type 0} (fl : Floats F) where
  abbrev section_rest : Section F → List ℕ → List ℕ
  section_rest s k = s.name ++ 10 ∷ (writeassistant s.assistant ++ roster_text fl s.roster k)

  sections_text-cons :
      (s : Section F) (ss : List (Section F))
      → texts (writesection fl) (s ∷ ss)
        ≡ codes " SECTION " ++ section_rest s (texts (writesection fl) ss)
  unfolding writesection
  sections_text-cons s ss =
      section_text s.name (writeassistant s.assistant) (texts (writestudent fl) s.roster)
        (texts (writesection fl) ss)

module _ (n : ℕ) where
  starts_section : (r : List ℕ) → Follows n (codes " SECTION " ++ r) section_keys
  unfolding advancetoken gobblewhitespace white word_loop store iswhitespace blank_lines string_in
      equal
  starts_section r = record {
    quiet = λ l. refl;
    loads = λ l v. refl;
    again = λ l v. refl;
    others = (refl, (refl, (refl, (refl, (refl, (refl, (refl, (refl, tt))))))));
  }

  starts_end : Follows n [] section_keys
  unfolding advancetoken gobblewhitespace white word_loop store iswhitespace blank_lines string_in
      equal
  starts_end = record {
    quiet = λ l. refl;
    loads = λ l v. refl;
    again = λ l v. refl;
    others = (refl, (refl, (refl, (refl, (refl, (refl, (refl, (refl, tt))))))));
  }

  starts_assistant_line : (r : List ℕ) → Follows n (codes " ASSISTANT " ++ r) []
  unfolding advancetoken gobblewhitespace white word_loop store iswhitespace blank_lines
  starts_assistant_line r = record {
    quiet = λ l. refl;
    loads = λ l v. refl;
    again = λ l v. refl;
    others = tt;
  }

  starts_assistant :
      {keys : List (List ℕ)} (a : Option Assistant) (k : List ℕ)
      → Follows n k keys
      → Follows n (writeassistant a ++ k) []
  unfolding writeassistant
  starts_assistant none k f = weaken f
  starts_assistant (some a) k f = rw (person_text a.surname a.name k) (starts_assistant_line _)

  pub section_name :
      (name k : List ℕ) (line warnings : ℕ)
      → IsLine name
      → ((l : ℕ) → blank_lines (suc (length k)) k l ≡ done (k, l))
      → readname (before n (32 ∷ (name ++ 10 ∷ k)) line warnings)
        ≡ done (name, before n k (line + 1) warnings)
  unfolding white iswhitespace
  section_name name k line warnings h q =
      readname-line n _ name k line warnings h (white-line name k h) (q (line + 1))

  section_key :
      (r : List ℕ) (line warnings : ℕ)
      → checktoken (codes "SECTION") (held n (codes " SECTION " ++ r) line warnings)
        ≡ done (true, before n (32 ∷ r) line warnings)
  unfolding checktoken white word_loop string_in equal iswhitespace
  section_key r line warnings = refl

  no_file_key :
      (r : List ℕ) (line warnings : ℕ)
      → checktoken (codes "FILE") (held n (codes " SECTION " ++ r) line warnings)
        ≡ done (false, held n (codes " SECTION " ++ r) line warnings)
  unfolding checktoken white word_loop string_in equal iswhitespace
  no_file_key r line warnings = refl

  token_below-section :
      (r : List ℕ) (line warnings : ℕ)
      → token_below [] (held n (codes " SECTION " ++ r) line warnings)
        ≡ done (true, held n (codes " SECTION " ++ r) line warnings)
  unfolding token_below white word_loop iswhitespace
  token_below-section r line warnings = refl

  token_below-end :
      (line warnings : ℕ)
      → token_below [] (held n [] line warnings) ≡ done (false, held n [] line warnings)
  unfolding token_below advancetoken gobblewhitespace white word_loop
  token_below-end line warnings = refl

module _ {F : Type 0} (fl : Floats F) (newscore : Score F) (asgts : List (Assignment F))
    (n : ℕ) where
  pub starts_sections :
      (ss : List (Section F)) → Follows n (texts (writesection fl) ss) section_keys
  starts_sections [] = starts_end n
  starts_sections (s ∷ ss) = rw (sections_text-cons fl s ss) (starts_section n _)

  -- The students after the assistant, who may not be there.
  roster-after :
      {keys : List (List ℕ)} (a : Option Assistant) (ss : List (Student F)) (fuel : ℕ) (k : List ℕ)
      (line warnings : ℕ)
      → All (IsStudent fl newscore asgts) ss
      → roster_fuel ss ≤ fuel
      → Follows n k (codes "SCORE" ∷ codes "ASSISTANT" ∷ codes "STUDENT" ∷ keys)
      → Reads
          (readstudents fl newscore fuel asgts)
          (elim a [
            | none ↦ held n (roster_text fl ss k) line warnings
            | some q ↦ before n (roster_text fl ss k) line warnings
          ])
          ss
          (held n k)
  roster-after none ss fuel k line warnings h e f =
      readstudents-write fl newscore asgts n ss fuel k line warnings h e f
  roster-after (some q) ss fuel k line warnings h e f =
      Reads-from (readstudents fl newscore fuel asgts)
        (before n (roster_text fl ss k) line warnings) (held n (roster_text fl ss k) line warnings)
        (readstudents-before fl newscore asgts n fuel (roster_text fl ss k) line warnings
          (starts_roster fl newscore asgts n ss k f))
        (readstudents-write fl newscore asgts n ss fuel k line warnings h e f)

  read_section-write :
      {keys : List (List ℕ)} (s : Section F) (fuel : ℕ) (k : List ℕ) (line warnings : ℕ)
      → IsSection fl newscore asgts s
      → roster_fuel s.roster ≤ fuel
      → Follows n k (codes "SCORE" ∷ codes "ASSISTANT" ∷ codes "STUDENT" ∷ keys)
      → Reads
          (read_section fl newscore fuel asgts)
          (before n (32 ∷ section_rest fl s k) line warnings)
          s
          (held n k)
  read_section-write s fuel k line warnings h e f =
      let t = roster_text fl s.roster k in
      let g = starts_roster fl newscore asgts n s.roster k f in
      let u = writeassistant s.assistant ++ t in
      rw
        (section_name n s.name u line warnings h.name_line
          (starts_assistant n s.assistant t g).quiet)
        (Reads-bind readassistant
          (λ a. readstudents fl newscore fuel asgts >>= λ rs.
            ret (record { name = s.name; assistant = a; roster = rs }))
          (before n u (line + 1) warnings)
          (readassistant-write n s.assistant t (line + 1) warnings h.assistant (drop_key g))
          (λ l v.
            Reads-bind (readstudents fl newscore fuel asgts)
              (λ rs. ret (record { name = s.name; assistant = s.assistant; roster = rs })) _
              (roster-after s.assistant s.roster fuel k l v h.roster e f) (λ l v. (l, v, refl))))

  module _ (files : List ℕ → Option (List ℕ)) where
    pub readsections-write :
        (ss : List (Section F)) (fuel : ℕ) (line warnings : ℕ)
        → All (IsSection fl newscore asgts) ss
        → sections_fuel ss ≤ fuel
        → Reads
            (readsections fl newscore files fuel asgts)
            (held n (texts (writesection fl) ss) line warnings)
            ss
            (held n [])
    unfolding readsections
    readsections-write ss zero line warnings h e = absurd (omega (arith, sections_fuel_positive ss))
    readsections-write [] (suc fuel) line warnings h e =
        (line, warnings, rw (token_below-end n line warnings) refl)
    readsections-write (s ∷ ss) (suc fuel) line warnings (p, h) e =
        let t = texts (writesection fl) ss in
        let r = section_rest fl s t in
        let small : roster_fuel s.roster ≤ fuel = omega (arith, sections_fuel_positive ss) in
        let rest : sections_fuel ss ≤ fuel = omega (arith, roster_fuel_positive s.roster) in
        rw
          (
            sections_text-cons fl s ss,
            token_below-section n r line warnings,
            no_file_key n r line warnings,
            section_key n r line warnings,
          )
          (Reads-cons (read_section fl newscore fuel asgts)
            (readsections fl newscore files fuel asgts) (before n (32 ∷ r) line warnings)
            (read_section-write s fuel t line warnings p small (starts_sections ss))
            (λ l v. readsections-write ss fuel l v h rest))
