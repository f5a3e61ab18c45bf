-- ===== src/Mips/Text.antt =====
-- The string helpers of `MIPS Convertor/src/hw1.c`. A C string is the list of its bytes without the
-- final NUL, so that `*s == '\0'` is the test for `[]`.
use cse.Base.{
  ℕ, suc, zero, ◌+◌, ◌-◌, Bool, true, false, ◌&&◌, ◌||◌, List, [], ◌∷◌, ◌==◌, ltb, if◌then◌else◌,
  drop,
}
use cse.Base.Word.{◌<<◌, ◌+w◌, ◌-w◌}

-- `stringEquals`
unfoldable pub string_equals : List ℕ → List ℕ → Bool
string_equals [] [] = true
string_equals [] (d ∷ t) = false
string_equals (c ∷ s) [] = false
string_equals (c ∷ s) (d ∷ t) = let rest = string_equals s t in if c == d then rest else false

-- `stringEqual`: a line end of the first word also ends it.
unfoldable pub string_equal : List ℕ → List ℕ → Bool
string_equal [] [] = true
string_equal [] (d ∷ t) = false
string_equal (c ∷ s) [] = c == b'\n'
string_equal (c ∷ s) (d ∷ t) = let rest = string_equal s t in if c == d then rest else false

-- `countCommas`, `countDollaSign` and `countSpaces`, each with its character: they read up to the
-- end of the line.
unfoldable pub count_char : ℕ → List ℕ → ℕ
count_char k [] = 0
count_char k (c ∷ s) =
    let rest = count_char k s in if c == b'\n' then 0 else if c == k then 1 + rest else rest

unfoldable pub count_commas : List ℕ → ℕ
count_commas = count_char b','

unfoldable pub count_dolla_sign : List ℕ → ℕ
count_dolla_sign = count_char b'$'

unfoldable pub count_spaces : List ℕ → ℕ
count_spaces = count_char b' '

-- `sameParenthesis`: opening less closing parentheses, as an `int`.
unfoldable pub same_parenthesis : List ℕ → ℕ
same_parenthesis [] = 0
same_parenthesis (c ∷ s) =
    let rest = same_parenthesis s in
    if c == b'\n' then 0 else if c == b'(' then 1 +w rest else if c == b')' then rest -w 1 else rest

-- `*num > 47 && *num < 58`, and the ranges of the letters.
abbrev pub is_decimal : ℕ → Bool
is_decimal c = ltb 47 c && ltb c 58

abbrev pub is_lower_hex : ℕ → Bool
is_lower_hex c = ltb 96 c && ltb c 103

abbrev pub is_upper_hex : ℕ → Bool
is_upper_hex c = ltb 64 c && ltb c 71

abbrev pub is_hex : ℕ → Bool
is_hex c = is_decimal c || is_lower_hex c || is_upper_hex c

-- The loop of `lastThreeZero`.
unfoldable pub all_zero : List ℕ → Bool
all_zero [] = true
all_zero (c ∷ s) = let rest = all_zero s in if c == b'0' then rest else false

unfoldable pub last_three_zero : List ℕ → ℕ → Bool
last_three_zero num n =
    if ltb n 1 then false else all_zero (if ltb 3 n then drop (n - 3) num else num)

-- The loop of `validBase`: `left` rounds are left, `i` are done; `num` is the whole string.
unfoldable pub base_loop : ℕ → ℕ → List ℕ → List ℕ → Bool
base_loop zero i num s = false
base_loop (suc left) i num [] = last_three_zero num i
base_loop (suc left) i num (c ∷ s) =
    let rest = base_loop left (i + 1) num s in if is_hex c then rest else false

unfoldable pub valid_base : List ℕ → Bool
valid_base num = base_loop 9 0 num num

-- The value of a hexadecimal digit in `strToI`.
unfoldable pub digit : ℕ → ℕ
digit c =
    if is_decimal c
    then c - 48
    else if is_lower_hex c
    then c - 87
    else if is_upper_hex c
    then c - 55
    else 0

-- `strToI`, with the result so far, which has been shifted for the next digit.
unfoldable pub str_to_i_from : ℕ → List ℕ → ℕ
str_to_i_from result [] = 0
str_to_i_from result (c ∷ []) = if is_hex c then result +w digit c else 0
str_to_i_from result (c ∷ d ∷ s) =
    let rest = str_to_i_from ((result +w digit c) << 4) (d ∷ s) in if is_hex c then rest else 0

unfoldable pub str_to_i : List ℕ → ℕ
str_to_i num = str_to_i_from 0 num
