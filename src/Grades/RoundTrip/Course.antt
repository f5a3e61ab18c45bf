-- ===== src/Grades/RoundTrip/Course.antt =====
-- `grades/src/read.c`: a written course.
use cse.Base.{
  ℕ, zero, suc, ◌+◌, ◌≤◌, ◌≡◌, refl, ap, ◌∙◌, true, List, [], ◌∷◌, ◌++◌, length, All, arith, codes,
}
use mathlib.Core.List.{append_assoc}
use cse.Grades.Records.{Floats, Assignment}
use cse.Grades.Read.{
  done, iswhitespace, white, gobblewhitespace, blank_lines, store, word_loop, advancetoken,
}
use cse.Grades.Read.Tokens.{string_in, equal, checktoken}
use cse.Grades.Read.Assignments.{read_assignment, readassignments}
use cse.Grades.Write.{texts, writeassignment}
use cse.Grades.RoundTrip.{Reads, Reads-cons, before, held, Follows}
use cse.Grades.RoundTrip.Words.{checktoken-held, checktoken-before}
use cse.Grades.RoundTrip.Sections.{section_keys}
use cse.Grades.RoundTrip.Lines.{IsAssignment, max_lines, norm_lines, weight_lines, assignment_lem}
use cse.Grades.RoundTrip.Assignments.{read_assignment-write}

module _ {F : Type 0} (fl : Floats F) (newassignment : Assignment F) where
  -- The line of an assignment, after the keyword, and what is after it.
  abbrev assignment_rest : (a : Assignment F) → IsAssignment fl newassignment a → List ℕ → List ℕ
  assignment_rest a h k =
      a.name
      ++ 32
        ∷ (a.atype
            ++ 10
              ∷ weight_lines fl newassignment h.weight
                  (norm_lines fl newassignment h.norm (max_lines fl newassignment h.max k)))

  abbrev pub assignments_text : List (Assignment F) → List ℕ → List ℕ
  assignments_text xs k = texts (writeassignment fl) xs ++ k

  assignments_text-cons :
      (a : Assignment F) (xs : List (Assignment F)) (k : List ℕ)
      (h : IsAssignment fl newassignment a)
      → fl.is_zero fl.float_zero ≡ true
      → assignments_text (a ∷ xs) k
        ≡ codes " ASSIGNMENT " ++ assignment_rest a h (assignments_text xs k)
  assignments_text-cons a xs k h z =
      append_assoc (writeassignment fl a) (texts (writeassignment fl) xs) k
      ∙ ap (λ b. writeassignment fl b ++ assignments_text xs k) h.made
      ∙ assignment_lem fl newassignment a.name a.atype h.weight h.norm h.max (assignments_text xs k)
          z h.max_shown

  module _ (n : ℕ) where
    -- The keywords that are looked for where an assignment may stand.
    abbrev pub assignment_keys : List (List ℕ)
    assignment_keys = codes "WEIGHT" ∷ codes "NORMALIZE" ∷ codes "MAXIMUM" ∷ codes "PROFESSOR" ∷ []

    starts_assignment : (r : List ℕ) → Follows n (codes " ASSIGNMENT " ++ r) assignment_keys
    unfolding advancetoken gobblewhitespace white word_loop store iswhitespace blank_lines string_in
        equal
    starts_assignment r = record {
      quiet = λ l. refl;
      loads = λ l v. refl;
      again = λ l v. refl;
      others = (refl, (refl, (refl, (refl, tt))));
    }

    pub starts_assignments :
        (xs : List (Assignment F)) (k : List ℕ)
        → fl.is_zero fl.float_zero ≡ true
        → All (IsAssignment fl newassignment) xs
        → Follows n k section_keys
        → Follows n (assignments_text xs k) assignment_keys
    starts_assignments [] k z h f =
        let o = f.others.1.1.1 in
        record {
          quiet = f.quiet;
          loads = f.loads;
          again = f.again;
          others = (o.0, (o.1.0, (o.1.1.0, (o.1.1.1.1.0, tt))));
        }
    starts_assignments (a ∷ xs) k z (p, h) f =
        rw (assignments_text-cons a xs k p z) (starts_assignment _)

    assignment_key :
        (r : List ℕ) (line warnings : ℕ)
        → checktoken (codes "ASSIGNMENT") (held n (codes " ASSIGNMENT " ++ r) line warnings)
          ≡ done (true, before n (32 ∷ r) line warnings)
    unfolding checktoken white word_loop string_in equal iswhitespace
    assignment_key r line warnings = refl

    pub readassignments-before :
        {keys : List (List ℕ)} (fuel : ℕ) (k : List ℕ) (line warnings : ℕ)
        → Follows n k keys
        → readassignments fl newassignment fuel (before n k line warnings)
          ≡ readassignments fl newassignment fuel (held n k line warnings)
    unfolding readassignments
    readassignments-before zero k line warnings f = refl
    readassignments-before (suc fuel) k line warnings f =
        rw (checktoken-before n k (codes "ASSIGNMENT") line warnings f) refl

    pub readassignments-write :
        (xs : List (Assignment F)) (fuel : ℕ) (k : List ℕ) (line warnings : ℕ)
        → fl.is_zero fl.float_zero ≡ true
        → All (IsAssignment fl newassignment) xs
        → length xs + 6 ≤ fuel
        → Follows n k section_keys
        → Reads
            (readassignments fl newassignment fuel)
            (held n (assignments_text xs k) line warnings)
            xs
            (held n k)
    unfolding readassignments
    readassignments-write xs zero k line warnings z h e f = absurd (omega arith)
    readassignments-write [] (suc fuel) k line warnings z h e f = (
      line,
      warnings,
      rw
          (checktoken-held n k (codes "ASSIGNMENT") line warnings (f.again line warnings)
            f.others.1.1.1.1.1.1.0)
          refl,
    )
    readassignments-write (a ∷ xs) (suc fuel) k line warnings z (p, h) e f =
        let t = assignments_text xs k in
        rw (assignments_text-cons a xs k p z, assignment_key (assignment_rest a p t) line warnings)
          (Reads-cons (read_assignment fl newassignment fuel)
            (readassignments fl newassignment fuel)
            (before n (32 ∷ assignment_rest a p t) line warnings)
            (read_assignment-write fl newassignment n a p fuel t line warnings (omega arith)
              (starts_assignments xs k z h f))
            (λ l v. readassignments-write xs fuel k l v z h (omega arith) f))
