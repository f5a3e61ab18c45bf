-- ===== src/Mips/Args.antt =====
-- `validargs` of `MIPS Convertor/src/hw1.c`. The result is the returned int as a Bool with the new
-- value of `global_options`; `argv` is the list of its strings, `argc` the length of the list.
pub mod Options
use Prim.Native.String.{String}
use cse.Base.{
  ℕ, Bool, true, false, ◌&&◌, List, [], ◌∷◌, ◌==◌, ltb, if◌then◌else◌, length, get_or, bit_or,
  bit_and, codes,
}
use cse.Mips.Text.{string_equals, valid_base, str_to_i}

-- `stringEquals(lit, *(argv + i))`
unfoldable pub is_arg : String → List (List ℕ) → ℕ → Bool
is_arg lit argv i = string_equals (codes lit) (get_or argv i [])

-- `-e ENDIANNESS` alone.
unfoldable pub endian_only : List (List ℕ) → ℕ → Bool × ℕ
endian_only argv options =
    if is_arg "b" argv 3
    then (true, bit_or options 0x4)
    else if is_arg "l" argv 3
    then (true, options)
    else (false, 0)

-- `-b BASEADDR` alone.
unfoldable pub base_only : List (List ℕ) → ℕ → Bool × ℕ
base_only argv options =
    let num = get_or argv 3 [] in
    if valid_base num then (true, bit_or options (str_to_i num)) else (false, 0)

-- `-e ENDIANNESS -b BASEADDR`, after the first is checked.
unfoldable pub then_base : List (List ℕ) → ℕ → Bool × ℕ
then_base argv options =
    let num = get_or argv 5 [] in
    if valid_base num then (true, bit_or options (str_to_i num)) else (false, 0)

unfoldable pub endian_base : List (List ℕ) → ℕ → Bool × ℕ
endian_base argv options =
    if is_arg "b" argv 3
    then then_base argv (bit_or options 0x4)
    else if is_arg "l" argv 3
    then then_base argv options
    else (false, 0)

-- `-b BASEADDR -e ENDIANNESS`, after the first is checked.
unfoldable pub then_endian : List (List ℕ) → ℕ → Bool × ℕ
then_endian argv options =
    if is_arg "b" argv 5
    then (true, bit_or options 0x4)
    else if is_arg "l" argv 5
    then (true, options)
    else (false, 0)

unfoldable pub base_endian : List (List ℕ) → ℕ → Bool × ℕ
base_endian argv options =
    let num = get_or argv 3 [] in
    if valid_base num then then_endian argv (bit_or options (str_to_i num)) else (false, 0)

-- The parameters after `-a` or `-d`, which differ only in the value so far. Where a parameter is
-- refused the value is 0: the branches of `-a` that do not reset it come there with 0.
unfoldable pub parameters : List (List ℕ) → ℕ → Bool × ℕ
parameters argv options =
    let argc = length argv in
    if ltb argc 3
    then (true, options)
    else if argc == 4 && is_arg "-b" argv 2
    then base_only argv options
    else if argc == 4 && is_arg "-e" argv 2
    then endian_only argv options
    else if argc == 6 && (is_arg "-e" argv 2 && is_arg "-b" argv 4)
    then endian_base argv options
    else if argc == 6 && (is_arg "-b" argv 2 && is_arg "-e" argv 4)
    then base_endian argv options
    else (false, 0)

unfoldable pub validargs : List (List ℕ) → Bool × ℕ
validargs argv =
    if ltb (length argv) 2
    then (false, 0)
    else if is_arg "-h" argv 1
    then (true, 1)
    else if is_arg "-a" argv 1
    then parameters argv (bit_and 0 0)
    else if is_arg "-d" argv 1
    then parameters argv 2
    else (false, 0)
