-- ===== src/Audible/Options.antt =====
-- The command line of `audible/src/hw1.c`, over the 64-bit `global_options`. A result is the
-- returned int as a Bool with the new value of `global_options`; `argv` is the list of its strings.
pub mod Outcome
use Prim.Native.String.{String}
use cse.Base.{
  ℕ, zero, suc, ◌+◌, ◌-◌, ◌*◌, ◌%◌, ◌^◌, Bool, true, false, not, ◌&&◌, ◌||◌, Option, none, some,
  List, [], ◌∷◌, ◌==◌, ltb, leb, if◌then◌else◌, length, get_or, bit_or, bit_and, codes, bit_xor,
}
use cse.Base.Word.{u32, ◌+w◌, ◌-w◌}

unfoldable pub string_equals : List ℕ → List ℕ → Bool
string_equals [] [] = true
string_equals [] (d ∷ t) = false
string_equals (c ∷ s) [] = false
string_equals (c ∷ s) (d ∷ t) = let rest = string_equals s t in if c == d then rest else false

unfoldable pub string_length : List ℕ → ℕ
string_length [] = 0
string_length (c ∷ s) = 1 + string_length s

-- The loop of `decStrToDec`: the number so far, or `none` at a character that is no digit. An `int`
-- is a pattern below 2 ^ 32 and wraps.
unfoldable pub dec_loop : ℕ → List ℕ → Option ℕ
dec_loop num [] = some num
dec_loop num (c ∷ s) =
    let rest = dec_loop (u32 (num * 10) +w (c - 48)) s in
    if ltb 47 c && ltb c 58 then rest else none

abbrev signed_or : Bool → Option ℕ → ℕ
signed_or minus none = 2 ^ 32 - 1
signed_or false (some num) = num
signed_or true (some num) = 0 -w num

unfoldable pub dec_str_to_dec : List ℕ → ℕ
dec_str_to_dec [] = 0
dec_str_to_dec (c ∷ s) =
    if c == b'-' then signed_or true (dec_loop 0 s) else signed_or false (dec_loop 0 (c ∷ s))

-- `decimalValue > 0 && decimalValue < 1025`; a negative int is above 1024 as a pattern.
unfoldable pub factor : List ℕ → ℕ → Bool × ℕ
factor str options =
    let value = dec_str_to_dec str in
    if ltb 0 value && ltb value 1025
    then (true, bit_or options ((value - 1) * 2 ^ 48))
    else (false, 0)

abbrev pub is_hex_digit : ℕ → Bool
is_hex_digit c = ltb 47 c && ltb c 58 || ltb 64 c && ltb c 71 || ltb 96 c && ltb c 103

unfoldable pub is_hex : List ℕ → Bool
is_hex [] = true
is_hex (c ∷ s) = let rest = is_hex s in if is_hex_digit c then rest else false

unfoldable pub hex_loop : ℕ → List ℕ → ℕ
hex_loop num [] = num
hex_loop num (c ∷ s) =
    let decimal = hex_loop (u32 (num * 16) +w (c - 48)) s in
    let upper = hex_loop (u32 (num * 16) +w (c - 65 + 10)) s in
    let lower = hex_loop (u32 (num * 16) +w (c - 97 + 10)) s in
    if ltb 47 c && ltb c 58
    then decimal
    else if ltb 64 c && ltb c 71
    then upper
    else if ltb 96 c && ltb c 103
    then lower
    else 2 ^ 32 - 1

unfoldable pub hex_str_to_dec : List ℕ → ℕ
hex_str_to_dec str = hex_loop 0 str

-- `num < 0` on an `unsigned int` never holds.
unfoldable pub key : List ℕ → ℕ → Bool × ℕ
key str options =
    let num = hex_str_to_dec str in
    if ltb 8 (string_length str) || not (is_hex str) then (false, 0) else (true, bit_or options num)

-- `stringEquals(lit, *(argv + i))`
unfoldable pub is_arg : String → List (List ℕ) → ℕ → Bool
is_arg lit argv i = string_equals (codes lit) (get_or argv i [])

abbrev pub preserve : ℕ → ℕ
preserve options = bit_or options 0x0800000000000000

unfoldable pub speed : List (List ℕ) → ℕ → Bool × ℕ
speed argv options =
    let argc = length argv in
    if argc == 3 && is_arg "-p" argv 2
    then (true, preserve options)
    else if argc == 4 && is_arg "-f" argv 2
    then factor (get_or argv 3 []) options
    else if argc == 5 && (is_arg "-p" argv 2 && is_arg "-f" argv 3)
    then factor (get_or argv 4 []) (preserve options)
    else if argc == 5 && (is_arg "-p" argv 4 && is_arg "-f" argv 2)
    then factor (get_or argv 3 []) (preserve options)
    else (false, options)

unfoldable pub crypt : List (List ℕ) → ℕ → Bool × ℕ
crypt argv options =
    let argc = length argv in
    if argc == 4 && is_arg "-k" argv 2
    then key (get_or argv 3 []) options
    else if argc == 5 && (is_arg "-p" argv 2 && is_arg "-k" argv 3)
    then key (get_or argv 4 []) (preserve options)
    else if argc == 5 && (is_arg "-p" argv 4 && is_arg "-k" argv 2)
    then key (get_or argv 3 []) (preserve options)
    else (false, options)

unfoldable pub validargs : List (List ℕ) → Bool × ℕ
validargs argv =
    let argc = length argv in
    if ltb argc 2
    then (false, 0)
    else if is_arg "-h" argv 1
    then (true, 0x8000000000000000)
    else if is_arg "-u" argv 1
    then if argc == 2 then (true, 0x4000000000000000) else speed argv 0x4000000000000000
    else if is_arg "-d" argv 1
    then if argc == 2 then (true, 0x2000000000000000) else speed argv 0x2000000000000000
    else if is_arg "-c" argv 1
    then crypt argv 0x1000000000000000
    else (false, 0)
