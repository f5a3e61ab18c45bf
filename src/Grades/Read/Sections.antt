-- ===== src/Grades/Read/Sections.antt =====
-- `grades/src/read.c`: scores, students, sections, the course and the file.
use cse.Base.{
  ℕ, zero, suc, Bool, true, not, ◌&&◌, ◌||◌, Option, none, some, List, [], ◌∷◌, if◌then◌else◌,
  codes,
}
use cse.Grades.Records.{Floats, Assignment, Npolicy, Gflag, Gsubst, Score, Student, Section, Course}
use cse.Grades.Read.{
  Ifile, Reader, Read, Outcome, done, stop, exited, ◌>>=◌, ◌>>◌, ret, fatal, error, warning,
  istoken, flushtoken, advancetoken, advanceeol, gobbleblanklines,
}
use cse.Grades.Read.Tokens.{
  string_in, equal, load, expecttoken, take_token, readsurname, readname, readid, expectnewline,
  expecteof, previousfile, pushfile, number_token, or_else,
}
use cse.Grades.Read.Assignments.{if_key, no_more, readprofessor, readassistant, readassignments}

-- The loop at the head of `readsections`: whether there is a token, in this file or one below.
unfoldable pub token_below : List Ifile → Read Bool
token_below [] s =
    if istoken s then done (true, s) else (advancetoken >>= λ _ t. done (istoken t, t)) s
token_below (f ∷ fs) s =
    if istoken s
    then done (true, s)
    else (advancetoken >>= λ _ t.
          if istoken t then done (true, t) else (previousfile >>= λ _. token_below fs) t)
        s

-- The keywords of a substituted score; none for a score.
unfoldable pub readsubst : Read (Option Gsubst)
readsubst = if_key (codes "USERAW") (ret (some Gsubst.useraw)) (
    if_key (codes "USENORM") (ret (some Gsubst.usenorm)) (
      if_key (codes "USELIKEAVG") (ret (some Gsubst.uselikeavg))
        (if_key (codes "USECLASSAVG") (ret (some Gsubst.useclassavg)) (ret none))))

module _ {F : Type 0} (fl : Floats F) where
  -- `s->asgt->max != 0.0 && s->grade > s->asgt->max`
  abbrev pub warn_max : Score F → Read (Unit {0})
  warn_max s =
      if not (fl.is_zero s.asgt.max) && fl.above s.grade s.asgt.max then warning else ret tt

  -- The number of a score, and the test against the maximum.
  unfoldable pub read_raw : Score F → Read (Score F)
  read_raw s = do
    load
    x ← number_token fl
    let t = record s { grade = or_else fl fl.float_zero x }
    warn_max t
    ret t

  -- The test of a normalized score against the policy of its assignment.
  abbrev pub check_norm : Assignment F → F → Read (Unit {0})
  check_norm a x = elim a.npolicy [
    | Npolicy.raw ↦ ret tt
    | Npolicy.linear ↦
        if fl.above (fl.low a.mean a.stddev) x || fl.above x (fl.high a.mean a.stddev)
        then warning
        else ret tt
    | Npolicy.quantile ↦
        if fl.above fl.float_zero x || fl.above x fl.float_hundred then error else ret tt
    | Npolicy.scale ↦ if fl.above fl.float_zero x || fl.above x a.scale then error else ret tt
  ]

  abbrev pub check_read : Assignment F → Option F → Read (Unit {0})
  check_read a none = ret tt
  check_read a (some x) = check_norm a x

  unfoldable pub read_norm : Score F → Read (Score F)
  read_norm s = do
    load
    x ← number_token fl
    check_read s.asgt x
    let y = or_else fl fl.float_zero x
    ret (record s { qnorm = y; lnorm = y; snorm = y })

  abbrev pub read_subst : Gsubst → Score F → Read (Score F)
  read_subst Gsubst.useraw s = read_raw s
  read_subst Gsubst.usenorm s = read_norm s
  read_subst Gsubst.uselikeavg s = ret s
  read_subst Gsubst.useclassavg s = ret s

  abbrev pub grade_as : Score F → Option Gsubst → Read (Score F)
  grade_as s none = read_raw (record s { flag = Gflag.valid })
  grade_as s (some u) = do
    t ← read_subst u (record s { flag = Gflag.invalid; subst = u })
    advanceeol
    code ← take_token
    ret (record t { code = code })

  unfoldable pub readgrade : Score F → Read (Score F)
  readgrade s = do u ← readsubst; grade_as s u

  -- The first assignment with the name.
  unfoldable pub find_assignment : List (Assignment F) → List ℕ → Option (Assignment F)
  find_assignment [] name = none
  find_assignment (a ∷ asgts) name =
      let rest = find_assignment asgts name in if equal a.name name then some a else rest

  abbrev pub found_assignment : Option (Assignment F) → Read (Assignment F)
  found_assignment none = fatal
  found_assignment (some a) = do flushtoken; ret a

  abbrev pub score_assignment : List (Assignment F) → Read (Assignment F)
  score_assignment asgts s =
      found_assignment (if istoken s then find_assignment asgts (string_in s.token) else none) s

  module _ (newscore : Score F) where
    abbrev pub read_score : List (Assignment F) → Read (Score F)
    read_score asgts = do
      load
      a ← score_assignment asgts
      t ← readgrade (record newscore { asgt = a })
      expectnewline
      ret t

    unfoldable pub readscores : ℕ → List (Assignment F) → Read (List (Score F))
    readscores zero asgts = no_more
    readscores (suc fuel) asgts =
        if_key (codes "SCORE")
          (do t ← read_score asgts; rest ← readscores fuel asgts; ret (t ∷ rest)) (ret [])

    abbrev pub read_student : ℕ → List (Assignment F) → Read (Student F)
    read_student fuel asgts = do
      id ← readid
      surname ← readsurname
      name ← readname
      rawscores ← readscores fuel asgts
      ret (record { id = id; surname = surname; name = name; rawscores = rawscores })

    unfoldable pub readstudents : ℕ → List (Assignment F) → Read (List (Student F))
    readstudents zero asgts = no_more
    readstudents (suc fuel) asgts =
        if_key (codes "STUDENT")
          (do t ← read_student fuel asgts; rest ← readstudents fuel asgts; ret (t ∷ rest)) (ret [])

    abbrev pub read_section : ℕ → List (Assignment F) → Read (Section F)
    read_section fuel asgts = do
      name ← readname
      assistant ← readassistant
      roster ← readstudents fuel asgts
      ret (record { name = name; assistant = assistant; roster = roster })

    module _ (files : List ℕ → Option (List ℕ)) where
      unfoldable pub readsections : ℕ → List (Assignment F) → Read (List (Section F))
      readsections zero asgts = no_more
      readsections (suc fuel) asgts = do
        found ← λ s. token_below s.prev s
        (if found
            then if_key (codes "FILE") (do pushfile files; readsections fuel asgts)
                (if_key (codes "SECTION")
                  (do t ← read_section fuel asgts; rest ← readsections fuel asgts; ret (t ∷ rest))
                  (ret []))
            else ret [])

      module _ (newassignment : Assignment F) where
        unfoldable pub readcourse : ℕ → Read (Course F)
        readcourse fuel = do
          expecttoken (codes "COURSE")
          number ← readid
          title ← readname
          professor ← readprofessor
          assignments ← readassignments fl newassignment fuel
          sections ← readsections fuel assignments
          ret (record {
            number = number;
            title = title;
            professor = professor;
            assignments = assignments;
            sections = sections;
          })

        abbrev pub start : List ℕ → Reader
        start text = record { token = []; fd = text; line = 1; prev = []; errors = 0; warnings = 0 }

        abbrev pub read_text : ℕ → Read (Course F)
        read_text fuel = do
          gobbleblanklines
          c ← readcourse fuel
          gobbleblanklines
          expecteof
          ret c

        abbrev pub read_opened : ℕ → Option (List ℕ) → Outcome (Course F × Reader)
        read_opened fuel none = stop exited
        read_opened fuel (some text) = read_text fuel (start text)

        unfoldable pub readfile : ℕ → List ℕ → Outcome (Course F × Reader)
        readfile fuel root = read_opened fuel (files root)
