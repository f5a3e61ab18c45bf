-- ===== src/Grades/Records.antt =====
-- `grades/include/gradedb.h`: the records of a course, with linked lists as lists. The fields that
-- only the statistics and the rosters set (`normscores`, `composite`, `cnext`, `roster` of a course,
-- the pointers to statistics) and the pointer of a student back to the section are left out.
use cse.Base.{ℕ, Bool, Option, List}

-- What the program uses of `float`: constants, comparisons, the ends of the usual range of a score,
-- `sscanf` with `%f` (none: not a number) and `printf` with `%f`.
pub record Floats (F : Type 0) : Type 0 where
  pub float_zero : F
  pub float_one : F
  pub float_hundred : F
  pub is_zero : F → Bool
  pub above : F → F → Bool
  pub low : F → F → F
  pub high : F → F → F
  pub scan : List ℕ → Option F
  pub show : F → List ℕ

pub record Professor : Type 0 where
  pub surname : List ℕ
  pub name : List ℕ

pub record Assistant : Type 0 where
  pub surname : List ℕ
  pub name : List ℕ

pub data Gflag : Type 0 where
  valid invalid : Gflag

pub data Gsubst : Type 0 where
  useraw usenorm uselikeavg useclassavg : Gsubst

pub data Wpolicy : Type 0 where
  noweight weight : Wpolicy

pub data Npolicy : Type 0 where
  raw linear quantile scale : Npolicy

pub data Ngroup : Type 0 where
  byclass bysection : Ngroup

pub record Assignment (F : Type 0) : Type 0 where
  pub name : List ℕ
  pub atype : List ℕ
  pub wpolicy : Wpolicy
  pub weight : F
  pub npolicy : Npolicy
  pub max : F
  pub mean : F
  pub stddev : F
  pub scale : F
  pub ngroup : Ngroup

pub record Score (F : Type 0) : Type 0 where
  pub asgt : Assignment F
  pub grade : F
  pub qnorm : F
  pub lnorm : F
  pub snorm : F
  pub flag : Gflag
  pub code : List ℕ
  pub subst : Gsubst

pub record Student (F : Type 0) : Type 0 where
  pub id : List ℕ
  pub surname : List ℕ
  pub name : List ℕ
  pub rawscores : List (Score F)

pub record Section (F : Type 0) : Type 0 where
  pub name : List ℕ
  pub assistant : Option Assistant
  pub roster : List (Student F)

pub record Course (F : Type 0) : Type 0 where
  pub number : List ℕ
  pub title : List ℕ
  pub professor : Option Professor
  pub assignments : List (Assignment F)
  pub sections : List (Section F)
