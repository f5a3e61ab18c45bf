-- ===== src/Grades/Read/Assignments.antt =====
-- `grades/src/read.c`: the professor, an assistant and the assignments.
use cse.Base.{ℕ, zero, suc, ◌+◌, Option, none, some, List, [], ◌∷◌, if◌then◌else◌, codes}
use cse.Grades.Records.{Floats, Professor, Assistant, Assignment, Wpolicy, Npolicy, Ngroup}
use cse.Grades.Read.{Read, stop, no_fuel, ◌>>=◌, ◌>>◌, ret, error, advancetoken}
use cse.Grades.Read.Tokens.{
  checktoken, readsurname, readname, readid, readatype, expectnewline, number_token, or_else,
}

-- `if(checktoken(key))`
abbrev pub if_key : {A : Type 0} → List ℕ → Read A → Read A → Read A
if_key key this that = do found ← checktoken key; (if found then this else that)

unfoldable pub readprofessor : Read (Option Professor)
readprofessor =
    if_key (codes "PROFESSOR")
      (do
        surname ← readsurname
        name ← readname
        ret (some (record { surname = surname; name = name })))
      (ret none)

unfoldable pub readassistant : Read (Option Assistant)
readassistant =
    if_key (codes "ASSISTANT")
      (do
        surname ← readsurname
        name ← readname
        ret (some (record { surname = surname; name = name })))
      (ret none)

abbrev pub no_more : {A : Type 0} → Read A
no_more s = stop no_fuel

module _ {F : Type 0} (fl : Floats F) where
  abbrev pub with_weight : Assignment F → Option F → Assignment F
  with_weight a none = record a { wpolicy = Wpolicy.noweight }
  with_weight a (some x) = record a { wpolicy = Wpolicy.weight; weight = x }

  unfoldable pub readweight : Assignment F → Read (Assignment F)
  readweight a = do advancetoken; x ← number_token fl; ret (with_weight a x)

  abbrev pub with_max : Assignment F → Option F → Assignment F
  with_max a none = a
  with_max a (some x) = record a { max = x }

  unfoldable pub readmax : Assignment F → Read (Assignment F)
  readmax a = do advancetoken; x ← number_token fl; ret (with_max a x)

  abbrev pub read_linear : Assignment F → Read (Option (Assignment F))
  read_linear a = do
    advancetoken
    mean ← number_token fl
    advancetoken
    stddev ← number_token fl
    ret (
        some (record a {
          npolicy = Npolicy.linear;
          mean = or_else fl fl.float_zero mean;
          stddev = or_else fl fl.float_one stddev;
        }))

  abbrev pub read_scale : Assignment F → Read (Option (Assignment F))
  read_scale a = do
    advancetoken
    top ← number_token fl
    ret (some (record a { npolicy = Npolicy.scale; scale = or_else fl fl.float_zero top }))

  -- One turn of the loop of `readnorm`; none for the `break`.
  unfoldable pub norm_option : Assignment F → Read (Option (Assignment F))
  norm_option a = if_key (codes "RAW") (ret (some (record a { npolicy = Npolicy.raw }))) (
      if_key (codes "STDLINEAR")
        (ret (
          some
            (record a { npolicy = Npolicy.linear; mean = fl.float_zero; stddev = fl.float_one })))
        (if_key (codes "GENLINEAR") (read_linear a) (
          if_key (codes "QUANTILE") (ret (some (record a { npolicy = Npolicy.quantile }))) (
            if_key (codes "SCALE") (read_scale a) (
              if_key (codes "BYCLASS") (ret (some (record a { ngroup = Ngroup.byclass }))) (
                if_key (codes "BYSECTION") (ret (some (record a { ngroup = Ngroup.bysection })))
                  (ret none)))))))

  abbrev pub norm_end : Assignment F → ℕ → Read (Assignment F)
  norm_end a zero = do error; ret (record a { npolicy = Npolicy.raw; ngroup = Ngroup.byclass })
  norm_end a (suc n) = ret a

  -- The loop of `readnorm`, with `found` and fuel, and the test after it.
  unfoldable pub norm_loop : ℕ → Assignment F → ℕ → Read (Assignment F)
  norm_loop zero a found = no_more
  norm_loop (suc fuel) a found = do
    o ← norm_option a
    elim o [ none ↦ norm_end a found | some b ↦ norm_loop fuel b (found + 1) ]

  unfoldable pub readnorm : ℕ → Assignment F → Read (Assignment F)
  readnorm fuel a = norm_loop fuel a 0

  -- One turn of the loop of `readassignments`; none for the `break`.
  unfoldable pub assignment_option : ℕ → Assignment F → Read (Option (Assignment F))
  assignment_option fuel a =
      if_key (codes "WEIGHT") (do b ← readweight a; expectnewline; ret (some b))
        (if_key (codes "NORMALIZE") (do b ← readnorm fuel a; expectnewline; ret (some b))
          (if_key (codes "MAXIMUM") (do b ← readmax a; expectnewline; ret (some b)) (ret none)))

  unfoldable pub assignment_loop : ℕ → Assignment F → Read (Assignment F)
  assignment_loop zero a = no_more
  assignment_loop (suc fuel) a = do
    o ← assignment_option fuel a
    elim o [ none ↦ ret a | some b ↦ assignment_loop fuel b ]

  -- The fields that `readassignments` sets before its loop, on what `malloc` gives.
  abbrev pub start_assignment : Assignment F → List ℕ → List ℕ → Assignment F
  start_assignment new name atype = record new {
    name = name;
    atype = atype;
    wpolicy = Wpolicy.noweight;
    npolicy = Npolicy.raw;
    weight = fl.float_zero;
    max = fl.float_zero;
    ngroup = Ngroup.byclass;
  }

  module _ (newassignment : Assignment F) where
    abbrev pub read_assignment : ℕ → Read (Assignment F)
    read_assignment fuel = do
      name ← readid
      atype ← readatype
      expectnewline
      assignment_loop fuel (start_assignment newassignment name atype)

    unfoldable pub readassignments : ℕ → Read (List (Assignment F))
    readassignments zero = no_more
    readassignments (suc fuel) =
        if_key (codes "ASSIGNMENT")
          (do a ← read_assignment fuel; rest ← readassignments fuel; ret (a ∷ rest)) (ret [])
