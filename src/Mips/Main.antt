-- ===== src/Mips/Main.antt =====
-- The two loops of `MIPS Convertor/src/main.c`. Standard input is a list of words or of lines, and
-- standard output a list of bytes or of printed lines. `sscanf` is a parameter: from the line, a
-- format and the old contents of `args` it gives the returned int and the new contents.
pub mod Laws
use cse.Base.{
  ℕ, zero, suc, ◌+◌, ◌*◌, ◌/◌, ◌%◌, ◌^◌, Bool, true, false, not, ◌&&◌, ◌||◌, Option, none, some,
  List, [], ◌∷◌, ◌++◌, ◌==◌, ltb, leb, if◌then◌else◌, bit_and,
}
use cse.Base.Word.{◌+w◌, ◌>>◌, is_neg, u8, sar}
use cse.Mips.Isa.{InstrType, Source, Three, InstrInfo, Instruction, instr_table}
use cse.Mips.Encode.{encode}
use cse.Mips.Decode.{decode}
use cse.Mips.Endian.{big_endian}
use cse.Mips.Text.{string_equal, count_commas, count_dolla_sign, count_spaces, same_parenthesis}

-- The address of the first instruction, and the byte order, from `global_options`.
unfoldable pub start_addr : ℕ → ℕ
start_addr options = bit_and options 0xfffff000

unfoldable pub swaps_bytes : ℕ → Bool
swaps_bytes options = not (bit_and (options >> 2) 1 == 0)

unfoldable pub in_order : Bool → ℕ → ℕ
in_order endi v = if endi then big_endian v else v

-- A printed line: the format and the three arguments of `printf`.
abbrev pub Line : Type 0
Line = List ℕ × Three ℕ

-- `-d`: one line for each word, up to the first that does not decode. The instruction of the last
-- round is passed on. The Bool is EXIT_SUCCESS.
unfoldable pub disassemble : Bool → ℕ → Instruction → List ℕ → List Line × Bool
disassemble endi addr instr [] = ([], true)
disassemble endi addr instr (v ∷ words) =
    let (r, ip) = decode (record instr { value = in_order endi v }) addr in
    let rest = disassemble endi (addr +w 4) ip words in
    if r then ((ip.info.format, ip.args) ∷ rest.0, rest.1) else ([], false)

module _ (scanf : List ℕ → List ℕ → Three ℕ → ℕ × Three ℕ) where
  -- The search for the format of a line: the entry, the count of converted arguments and `args`.
  unfoldable pub find_format : List ℕ → List InstrInfo → Three ℕ → Option (InstrInfo × ℕ × Three ℕ)
  find_format line [] args = none
  find_format line (row ∷ rows) args =
      let (amt, args') = scanf line row.format args in
      let rest = find_format line rows args' in
      if not (amt == 0) || string_equal line row.format then some (row, amt, args') else rest

-- `countCommas(userInput) >= amtOfArg && amtOfArg != 0` and the tests beside it.
unfoldable pub is_malformed : List ℕ → InstrInfo → ℕ → Bool
is_malformed line info amt =
    (is_neg amt || leb amt (count_commas line)) && not (amt == 0)
    || not (count_dolla_sign info.format == count_dolla_sign line)
    || not (count_spaces info.format == count_spaces line)
    || not (same_parenthesis line == 0)

abbrev pub is_register : Source → Bool
is_register Source.rs = true
is_register Source.rt = true
is_register Source.rd = true
is_register s = false

-- One round of the loop over `srcs`: the new `extra` and count, or `none` for EXIT_FAILURE.
unfoldable pub count_arg : Source → ℕ → Option (ℕ × ℕ) → Option (ℕ × ℕ)
count_arg s a none = none
count_arg Source.nsrc a (some (extra, n)) = some (extra, n)
count_arg Source.extra a (some (extra, n)) = some (a, n + 1)
count_arg s a (some (extra, n)) = if is_neg a || ltb 31 a then none else some (extra, n + 1)

unfoldable pub count_args : InstrInfo → Three ℕ → ℕ → Option (ℕ × ℕ)
count_args info args extra =
    count_arg info.srcs.at2 args.at2
      (count_arg info.srcs.at1 args.at1 (count_arg info.srcs.at0 args.at0 (some (extra, 0))))

-- `regs[i] = args[i]` for the register arguments; a `char` holds a number below 32.
unfoldable pub copy_regs : InstrInfo → Three ℕ → Three ℕ → Three ℕ
copy_regs info args regs = record {
  at0 = if is_register info.srcs.at0 then args.at0 else regs.at0;
  at1 = if is_register info.srcs.at1 then args.at1 else regs.at1;
  at2 = if is_register info.srcs.at2 then args.at2 else regs.at2;
}

-- `putchar(instr.value); instr.value >>= 8;` four times.
unfoldable pub put_word : ℕ → ℕ → List ℕ
put_word zero v = []
put_word (suc n) v = u8 v ∷ put_word n (sar v 8)

-- The rest of a round once the format is known: the bytes written and the instruction.
unfoldable pub assemble_found :
    Bool → ℕ → Instruction → List ℕ → InstrInfo × ℕ × Three ℕ → Option (List ℕ × Instruction)
assemble_found endi addr instr line (info, amt, args) =
    if is_malformed line info amt then none else elim (count_args info args instr.extra) [
      | none ↦ none
      | some (extra, n) ↦
          if n == amt
          then (let ready = record instr {
            info = info;
            regs = copy_regs info args instr.regs;
            extra = extra;
            args = args;
          } in
              let (r, ip) = encode ready addr in
              if r then some (put_word 4 (in_order endi ip.value), ip) else none)
          else none
    ]

module _ (scanf : List ℕ → List ℕ → Three ℕ → ℕ × Three ℕ) where
  unfoldable pub assemble_line : Bool → ℕ → Instruction → List ℕ → Option (List ℕ × Instruction)
  assemble_line endi addr instr line = elim (find_format scanf line instr_table instr.args) [
    | none ↦ none
    | some found ↦ assemble_found endi addr instr line found
  ]

  -- `-a`: the bytes of each line, up to the first that is refused.
  unfoldable pub assemble : Bool → ℕ → Instruction → List (List ℕ) → List ℕ × Bool
  assemble endi addr instr [] = ([], true)
  assemble endi addr instr (line ∷ lines) = elim (assemble_line endi addr instr line) [
    | none ↦ ([], false)
    | some (bytes, ip) ↦ let rest = assemble endi (addr +w 4) ip lines in (bytes ++ rest.0, rest.1)
  ]
