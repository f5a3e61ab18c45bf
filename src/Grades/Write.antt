-- ===== src/Grades/Write.antt =====
-- `grades/src/write.c`: the text that is written for a course.
use cse.Base.{ℕ, List, [], ◌∷◌, ◌++◌, Option, none, some, if◌then◌else◌, codes}
use cse.Grades.Records.{
  Floats, Professor, Assistant, Assignment, Wpolicy, Npolicy, Ngroup, Gflag, Gsubst, Score, Student,
  Section, Course,
}

-- Pieces of text, one after the other.
abbrev pub texts {ℓ} : {A : Type ℓ} → (A → List ℕ) → List A → List ℕ
texts write [] = []
texts write (x ∷ xs) = write x ++ texts write xs

unfoldable pub writeprofessor : Option Professor → List ℕ
writeprofessor none = []
writeprofessor (some p) = codes " PROFESSOR " ++ p.surname ++ codes ", " ++ p.name ++ codes "\n"

unfoldable pub writeassistant : Option Assistant → List ℕ
writeassistant none = []
writeassistant (some a) = codes " ASSISTANT " ++ a.surname ++ codes ", " ++ a.name ++ codes "\n"

abbrev pub group_text : Ngroup → List ℕ
group_text Ngroup.byclass = codes " BYCLASS\n"
group_text Ngroup.bysection = codes " BYSECTION\n"

module _ {F : Type 0} (fl : Floats F) where
  abbrev pub norm_text : Score F → Npolicy → List ℕ
  norm_text s Npolicy.quantile = codes " USENORM " ++ fl.show s.qnorm
  norm_text s Npolicy.linear = codes " USENORM " ++ fl.show s.lnorm
  norm_text s Npolicy.scale = codes " USENORM " ++ fl.show s.snorm
  norm_text s Npolicy.raw = []

  -- The case of USENORM has no `break`.
  abbrev pub subst_text : Score F → Gsubst → List ℕ
  subst_text s Gsubst.useraw = codes " USERAW " ++ fl.show s.grade
  subst_text s Gsubst.usenorm = norm_text s s.asgt.npolicy ++ codes " USELIKEAVG"
  subst_text s Gsubst.uselikeavg = codes " USELIKEAVG"
  subst_text s Gsubst.useclassavg = codes " USECLASSAVG"

  abbrev pub grade_text : Score F → Gflag → List ℕ
  grade_text s Gflag.valid = codes " " ++ fl.show s.grade
  grade_text s Gflag.invalid = subst_text s s.subst ++ codes " " ++ s.code

  unfoldable pub writescore : Score F → List ℕ
  writescore s = codes "   SCORE " ++ s.asgt.name ++ grade_text s s.flag ++ codes "\n"

  unfoldable pub writestudent : Student F → List ℕ
  writestudent s =
      codes "  STUDENT "
      ++ s.id
      ++ codes " "
      ++ s.surname
      ++ codes ", "
      ++ s.name
      ++ codes "\n"
      ++ texts writescore s.rawscores

  unfoldable pub writesection : Section F → List ℕ
  writesection s =
      codes " SECTION "
      ++ s.name
      ++ codes "\n"
      ++ writeassistant s.assistant
      ++ texts writestudent s.roster

  abbrev pub weight_text : Assignment F → Wpolicy → List ℕ
  weight_text a Wpolicy.weight = codes "  WEIGHT " ++ fl.show a.weight ++ codes "\n"
  weight_text a Wpolicy.noweight = []

  abbrev pub policy_text : Assignment F → Npolicy → List ℕ
  policy_text a Npolicy.raw = []
  policy_text a Npolicy.linear =
      codes "  NORMALIZE LINEAR: "
      ++ fl.show a.mean
      ++ codes ", "
      ++ fl.show a.stddev
      ++ group_text a.ngroup
  policy_text a Npolicy.quantile = codes "  NORMALIZE QUANTILE" ++ group_text a.ngroup
  policy_text a Npolicy.scale = codes "  NORMALIZE SCALE " ++ fl.show a.scale ++ group_text a.ngroup

  unfoldable pub writeassignment : Assignment F → List ℕ
  writeassignment a =
      codes " ASSIGNMENT "
      ++ a.name
      ++ codes " "
      ++ a.atype
      ++ codes "\n"
      ++ weight_text a a.wpolicy
      ++ policy_text a a.npolicy
      ++ (if fl.is_zero a.max then [] else codes "  MAXIMUM " ++ fl.show a.max ++ codes "\n")

  unfoldable pub writecourse : Course F → List ℕ
  writecourse c =
      codes "COURSE "
      ++ c.number
      ++ codes " "
      ++ c.title
      ++ codes "\n"
      ++ writeprofessor c.professor
      ++ texts writeassignment c.assignments
      ++ texts writesection c.sections
