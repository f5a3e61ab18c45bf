-- ===== src/Grades/RoundTrip/People.antt =====
-- `grades/src/read.c`: numbers, the professor and the assistant of a written course.
use cse.Base.{
  ℕ, suc, ◌+◌, ◌≡◌, refl, true, false, Option, none, some, List, [], ◌∷◌, ◌++◌, ◌==◌, length,
  get_or, codes,
}
use mathlib.Core.List.{append_assoc}
use cse.Grades.Records.{Floats, Professor, Assistant}
use cse.Grades.Read.{
  iswhitespace, white, gobblewhitespace, blank_lines, store, word_loop, advancetoken, done,
}
use cse.Grades.Read.Tokens.{string_in, equal, checktoken, readsurname, readname, number_token}
use cse.Grades.Read.Assignments.{readprofessor, readassistant}
use cse.Grades.Write.{writeprofessor, writeassistant}
use cse.Grades.RoundTrip.{IsWord, IsLine, Reads, before, held, Follows}
use cse.Grades.RoundTrip.Words.{
  string_in-line, word-line, white-word, white-line, istoken-word, readsurname-word, readname-line,
  checktoken-held, checktoken-before,
}

-- A number that is a word, is read as itself, and does not begin with a U.
pub record IsShown {F : Type 0} (fl : Floats F) (x : F) : Type 0 where
  pub word : IsWord (fl.show x)
  pub reads : fl.scan (fl.show x) ≡ some x
  pub begins : (get_or (fl.show x) 0 0 == 85) ≡ false

pub record IsPerson (surname name : List ℕ) : Type 0 where
  pub surname_word : IsWord surname
  pub name_line : IsLine name

abbrev pub IsProfessor : Option Professor → Type 0
IsProfessor none = Unit
IsProfessor (some p) = IsPerson p.surname p.name

abbrev pub IsAssistant : Option Assistant → Type 0
IsAssistant none = Unit
IsAssistant (some p) = IsPerson p.surname p.name

module _ {F : Type 0} (fl : Floats F) (n : ℕ) where
  pub number_token-shown :
      (x : F) (k : List ℕ) (line warnings : ℕ)
      → IsShown fl x
      → number_token fl (record (before n k line warnings) { token = fl.show x ++ (0 ∷ []) })
        ≡ done (some x, before n k line warnings)
  unfolding number_token
  number_token-shown x k line warnings h =
      rw
        (
          istoken-word n (fl.show x),
          string_in-line (fl.show x) (word-line (fl.show x) h.word.chars),
          h.reads,
        )
        refl

person_line_lem :
    (surname name k : List ℕ)
    → (surname ++ codes ", " ++ name ++ codes "\n") ++ k ≡ surname ++ 44 ∷ 32 ∷ (name ++ 10 ∷ k)
person_line_lem surname name k = simp (append_assoc)

module _ (n : ℕ) where
  pub surname_lem :
      (surname name k : List ℕ) (line warnings : ℕ)
      → IsPerson surname name
      → readsurname (before n (32 ∷ (surname ++ 44 ∷ 32 ∷ (name ++ 10 ∷ k))) line warnings)
        ≡ done (surname, before n (44 ∷ 32 ∷ (name ++ 10 ∷ k)) line warnings)
  unfolding white iswhitespace
  surname_lem surname name k line warnings h =
      readsurname-word n _ surname _ line warnings h.surname_word refl
        (white-word surname _ h.surname_word)

  pub name_lem :
      (name k : List ℕ) (line warnings : ℕ)
      → IsLine name
      → ((l : ℕ) → blank_lines (suc (length k)) k l ≡ done (k, l))
      → readname (before n (44 ∷ 32 ∷ (name ++ 10 ∷ k)) line warnings)
        ≡ done (name, before n k (line + 1) warnings)
  unfolding white iswhitespace
  name_lem name k line warnings h q =
      readname-line n _ name k line warnings h (white-line name k h) (q (line + 1))

  professor_key :
      (r : List ℕ) (line warnings : ℕ)
      → checktoken (codes "PROFESSOR") (before n (codes " PROFESSOR " ++ r) line warnings)
        ≡ done (true, before n (32 ∷ r) line warnings)
  unfolding checktoken advancetoken gobblewhitespace white word_loop store string_in equal
      iswhitespace
  professor_key r line warnings = refl

  -- The professor, where the text has one.
  pub readprofessor-write :
      (p : Option Professor) (k : List ℕ) (line warnings : ℕ)
      → IsProfessor p
      → Follows n k (codes "PROFESSOR" ∷ [])
      → Reads readprofessor
          (before n (writeprofessor p ++ k) line warnings)
          p
          (λ l v. elim p [ none ↦ held n k l v | some q ↦ before n k l v ])
  unfolding readprofessor writeprofessor
  readprofessor-write none k line warnings h f = (
    line,
    warnings,
    rw
        (
          checktoken-before n k (codes "PROFESSOR") line warnings f,
          checktoken-held n k (codes "PROFESSOR") line warnings (f.again line warnings) f.others.0,
        )
        refl,
  )
  readprofessor-write (some p) k line warnings h f = rw (person_line_lem p.surname p.name k) (
    line + 1,
    warnings,
    rw
        (
          professor_key (p.surname ++ 44 ∷ 32 ∷ (p.name ++ 10 ∷ k)) line warnings,
          surname_lem p.surname p.name k line warnings h,
          name_lem p.name k line warnings h.name_line f.quiet,
        )
        refl,
  )

  assistant_key :
      (r : List ℕ) (line warnings : ℕ)
      → checktoken (codes "ASSISTANT") (before n (codes " ASSISTANT " ++ r) line warnings)
        ≡ done (true, before n (32 ∷ r) line warnings)
  unfolding checktoken advancetoken gobblewhitespace white word_loop store string_in equal
      iswhitespace
  assistant_key r line warnings = refl

  pub readassistant-write :
      (p : Option Assistant) (k : List ℕ) (line warnings : ℕ)
      → IsAssistant p
      → Follows n k (codes "ASSISTANT" ∷ [])
      → Reads readassistant
          (before n (writeassistant p ++ k) line warnings)
          p
          (λ l v. elim p [ none ↦ held n k l v | some q ↦ before n k l v ])
  unfolding readassistant writeassistant
  readassistant-write none k line warnings h f = (
    line,
    warnings,
    rw
        (
          checktoken-before n k (codes "ASSISTANT") line warnings f,
          checktoken-held n k (codes "ASSISTANT") line warnings (f.again line warnings) f.others.0,
        )
        refl,
  )
  readassistant-write (some p) k line warnings h f = rw (person_line_lem p.surname p.name k) (
    line + 1,
    warnings,
    rw
        (
          assistant_key (p.surname ++ 44 ∷ 32 ∷ (p.name ++ 10 ∷ k)) line warnings,
          surname_lem p.surname p.name k line warnings h,
          name_lem p.name k line warnings h.name_line f.quiet,
        )
        refl,
  )
