-- ===== src/Grades/RoundTrip/Tests.antt =====
-- A course that is written and read, and files that are not as expected.
use cse.Base.{
  ℕ, ◌+◌, ◌-◌, ◌≤◌, ◌≡◌, refl, true, false, ◌&&◌, Option, none, some, List, [], ◌∷◌, ◌++◌, ◌==◌,
  ltb, codes, if◌then◌else◌, length, arith,
}
use cse.Grades.Records.{
  Floats, Gflag, Gsubst, Wpolicy, Npolicy, Ngroup, Assignment, Score, Student, Course,
}
use cse.Grades.Read.{
  exited, overrun, done, stop, iswhitespace, white, gobblewhitespace, blank_lines, gobbleblanklines,
  nextchar, store, word_loop, advancetoken, line_loop, advanceeol,
}
use cse.Grades.Read.Tokens.{
  string_in, equal, checktoken, expecttoken, take_token, token_or_error, readsurname, readid,
  expectnewline, readname, previousfile, close_all, expecteof, pushfile,
}
use cse.Grades.Read.Assignments.{readprofessor, readassistant, assignment_option, readassignments}
use cse.Grades.Read.Sections.{
  token_below, find_assignment, readscores, readstudents, readsections, readcourse, readfile,
}
use cse.Grades.Write.{
  writeprofessor, writeassistant, writescore, writestudent, writesection, policy_text,
  writeassignment, writecourse,
}
use cse.Grades.RoundTrip.{word_char, ends_token, before}
use cse.Grades.RoundTrip.People.{IsShown}
use cse.Grades.RoundTrip.Grade.{given, like_avg}
use cse.Grades.RoundTrip.Scores.{IsScore}
use cse.Grades.RoundTrip.Students.{IsStudent}
use cse.Grades.RoundTrip.Lines.{by_quantile, by_scale, IsAssignment}
use cse.Grades.RoundTrip.File.{IsCourse, readfile-writecourse}
use cse.Grades.RoundTrip.Errors.{advancetoken-bounds, linear-read}

-- Numbers of one digit.
abbrev digit : List ℕ → Option ℕ
digit [] = none
digit (c ∷ t) = if ltb 47 c && ltb c 58 then some (c - 48) else none

abbrev digits : Floats ℕ
digits = record {
  float_zero = 0;
  float_one = 1;
  float_hundred = 100;
  is_zero = λ n. n == 0;
  above = λ m n. ltb n m;
  low = λ m d. m - d;
  high = λ m d. m + d;
  scan = digit;
  show = λ n. (n + 48) ∷ [];
}

abbrev no_assignment : Assignment ℕ
no_assignment = record {
  name = [];
  atype = [];
  wpolicy = Wpolicy.noweight;
  weight = 7;
  npolicy = Npolicy.raw;
  max = 7;
  mean = 7;
  stddev = 7;
  scale = 7;
  ngroup = Ngroup.byclass;
}

abbrev no_score : Score ℕ
no_score = record {
  asgt = no_assignment;
  grade = 7;
  qnorm = 7;
  lnorm = 7;
  snorm = 7;
  flag = Gflag.invalid;
  code = [];
  subst = Gsubst.useraw;
}

abbrev hw1 : Assignment ℕ
hw1 = record no_assignment {
  name = codes "HW1";
  atype = codes "HW";
  weight = 0;
  max = 9;
  npolicy = Npolicy.scale;
  scale = 8;
}

abbrev exam : Assignment ℕ
exam = record no_assignment {
  name = codes "E";
  atype = codes "Exam";
  wpolicy = Wpolicy.weight;
  weight = 5;
  max = 0;
  npolicy = Npolicy.quantile;
  ngroup = Ngroup.bysection;
}

abbrev ng : Student ℕ
ng = record {
  id = codes "7";
  surname = codes "Ng";
  name = codes "Bo";
  rawscores =
      record no_score { asgt = hw1; flag = Gflag.valid; grade = 6 }
      ∷ record no_score {
        asgt = exam;
        flag = Gflag.invalid;
        subst = Gsubst.uselikeavg;
        code = codes "ill";
      }
      ∷ [];
}

abbrev stark : Course ℕ
stark = record {
  number = codes "C1";
  title = codes "Languages";
  professor = some (record { surname = codes "Stark"; name = codes "E. W." });
  assignments = hw1 ∷ exam ∷ [];
  sections = record { name = codes "01"; assistant = none; roster = ng ∷ [] } ∷ [];
}

abbrev one_file : List ℕ → List ℕ → Option (List ℕ)
one_file text name = some text

digit-IsShown :
    (x : ℕ)
    → digit ((x + 48) ∷ []) ≡ some x
    → word_char (x + 48) ≡ true
    → ((x + 48) == 85) ≡ false
    → IsShown digits x
digit-IsShown x r c b = record {
  word = record { chars = (c, tt); filled = refl; short = omega arith };
  reads = r;
  begins = b;
}

hw1_made : IsAssignment digits no_assignment hw1
unfolding iswhitespace
hw1_made = record {
  weight = none;
  norm = by_scale 8 Ngroup.byclass;
  max = some 9;
  name_word = record { chars = (refl, (refl, (refl, tt))); filled = refl; short = omega arith };
  atype_word = record { chars = (refl, (refl, tt)); filled = refl; short = omega arith };
  weight_shown = tt;
  norm_shown = digit-IsShown 8 refl refl refl;
  max_shown = (digit-IsShown 9 refl refl refl, refl);
  made = refl;
}

exam_made : IsAssignment digits no_assignment exam
unfolding iswhitespace
exam_made = record {
  weight = some 5;
  norm = by_quantile Ngroup.bysection;
  max = none;
  name_word = record { chars = (refl, tt); filled = refl; short = omega arith };
  atype_word = record {
    chars = (refl, (refl, (refl, (refl, tt))));
    filled = refl;
    short = omega arith;
  };
  weight_shown = digit-IsShown 5 refl refl refl;
  norm_shown = tt;
  max_shown = tt;
  made = refl;
}

first_made :
    IsScore digits no_score
      (hw1 ∷ exam ∷ [])
      (record no_score { asgt = hw1; flag = Gflag.valid; grade = 6 })
unfolding iswhitespace find_assignment equal
first_made = record {
  grade = given 6;
  grade_shown = digit-IsShown 6 refl refl refl;
  word = hw1_made.name_word;
  found = refl;
  made = refl;
}

second_made : IsScore digits no_score (hw1 ∷ exam ∷ []) (record no_score {
  asgt = exam;
  flag = Gflag.invalid;
  subst = Gsubst.uselikeavg;
  code = codes "ill";
})
unfolding iswhitespace find_assignment equal
second_made = record {
  grade = like_avg (codes "ill");
  grade_shown = record { chars = (refl, (refl, (refl, tt))); begins = refl; short = omega arith };
  word = exam_made.name_word;
  found = refl;
  made = refl;
}

ng_made : IsStudent digits no_score (hw1 ∷ exam ∷ []) ng
unfolding iswhitespace
ng_made = record {
  id_word = record { chars = (refl, tt); filled = refl; short = omega arith };
  person = record {
    surname_word = record { chars = (refl, (refl, tt)); filled = refl; short = omega arith };
    name_line = record { chars = (refl, (refl, tt)); begins = refl; short = omega arith };
  };
  scores = (first_made, (second_made, tt));
}

stark_made : IsCourse digits no_score no_assignment stark
unfolding iswhitespace
stark_made = record {
  number_word = record { chars = (refl, (refl, tt)); filled = refl; short = omega arith };
  title_line = record {
    chars = (refl, (refl, (refl, (refl, (refl, (refl, (refl, (refl, (refl, tt)))))))));
    begins = refl;
    short = omega arith;
  };
  professor = record {
    surname_word = record {
      chars = (refl, (refl, (refl, (refl, (refl, tt)))));
      filled = refl;
      short = omega arith;
    };
    name_line = record {
      chars = (refl, (refl, (refl, (refl, (refl, tt)))));
      begins = refl;
      short = omega arith;
    };
  };
  assignments = (hw1_made, (exam_made, tt));
  sections = (
    record {
      name_line = record { chars = (refl, (refl, tt)); begins = refl; short = omega arith };
      assistant = tt;
      roster = (ng_made, tt);
    },
    tt,
  );
}

stark_fits : length (writecourse digits stark) + 6 ≤ 500
unfolding writecourse writeprofessor writeassignment writesection writestudent writescore
    writeassistant
stark_fits = omega arith

colon_ends : ends_token (codes ": x") ≡ true
unfolding iswhitespace
colon_ends = refl

readfile-writecourse_example :
    (line : ℕ) × (warnings : ℕ) × (readfile digits no_score
        (one_file (writecourse digits stark))
        no_assignment
        500
        (codes "f")
      ≡ done (
        stark,
        record { token = []; fd = []; line = line; prev = []; errors = 0; warnings = warnings },
      ))
readfile-writecourse_example =
    readfile-writecourse digits no_score no_assignment (one_file (writecourse digits stark)) stark
      (codes "f") 500 refl stark_made refl stark_fits

advancetoken-bounds_example : advancetoken (before 0 (codes "HW1" ++ codes ": x") 1 0) ≡ (
    if ltb 3 64
    then done (tt, record (before 0 (codes ": x") 1 0) { token = codes "HW1" ++ (0 ∷ []) })
    else stop overrun)
advancetoken-bounds_example =
    advancetoken-bounds 0 (codes "HW1") (codes ": x") 1 0 hw1_made.name_word.chars (omega arith)
      colon_ends

abbrev curve : Assignment ℕ
curve = record hw1 { npolicy = Npolicy.linear; mean = 2; stddev = 1 }

two-IsShown : IsShown digits 2
unfolding iswhitespace
two-IsShown = digit-IsShown 2 refl refl refl

one-IsShown : IsShown digits 1
unfolding iswhitespace
one-IsShown = digit-IsShown 1 refl refl refl

linear-read_example :
    assignment_option digits 3 hw1
      (before 0 (policy_text digits curve Npolicy.linear ++ codes "  x") 4 0)
    ≡ done (
      some (record hw1 { npolicy = Npolicy.raw; ngroup = Ngroup.byclass }),
      record (before 0 (codes "  x") 5 0) { errors = 2 },
    )
linear-read_example =
    linear-read digits 0 2 curve hw1 (codes "  x") 4 0 refl two-IsShown one-IsShown

-- A file that names another one, and a course that ends with an unknown line.
abbrev two_files : List ℕ → Option (List ℕ)
two_files name =
    if equal name (codes "a")
    then some (codes "COURSE c t\n FILE b\nSECTION 2\nend")
    else some (codes "SECTION 1\n")

nested :
    readfile digits no_score two_files no_assignment 9 (codes "a")
    ≡ done (
      record {
        number = codes "c";
        title = codes "t";
        professor = none;
        assignments = [];
        sections =
            record { name = codes "1"; assistant = none; roster = [] }
            ∷ record { name = codes "2"; assistant = none; roster = [] }
            ∷ [];
      },
      record { token = []; fd = []; line = 4; prev = []; errors = 1; warnings = 0 },
    )
unfolding readfile readcourse readsections readstudents readassignments readprofessor readassistant
    expecttoken token_below pushfile previousfile close_all readname readid token_or_error
    take_token expectnewline nextchar expecteof gobbleblanklines blank_lines gobblewhitespace white
    advancetoken word_loop advanceeol line_loop store checktoken string_in equal iswhitespace
nested = refl

unknown_assignment :
    readfile digits no_score
      (one_file (codes "COURSE c t\nSECTION 1\nSTUDENT 7 Ng, Bo\nSCORE HW9 5\n"))
      no_assignment
      9
      []
    ≡ stop exited
unfolding readfile readcourse readsections readstudents readscores readassignments readprofessor
    readassistant find_assignment expecttoken token_below readname readid readsurname token_or_error
    take_token expectnewline nextchar gobbleblanklines blank_lines gobblewhitespace white
    advancetoken word_loop advanceeol line_loop store checktoken string_in equal iswhitespace
unknown_assignment = refl
