-- ===== src/Mips/Tests.antt =====
-- Runs of the assembler and the disassembler, on the examples of `MIPS Convertor/tests`, and the
-- theorems at concrete inputs.
use cse.Base.{ℕ, ◌≡◌, ◌<◌, ◌%◌, ◌^◌, refl, true, false, none, List, [], ◌∷◌, arith, codes}
use cse.Mips.Isa.{Opcode, opcode_eq, Three, Instruction, no_entry}
use cse.Mips.Encode.{encode, encode_open, is_ntyp, is_branch, index_of}
use cse.Mips.Decode.{decode, decode_open}
use cse.Mips.Endian.{big_endian, swap_outer, swap_middle, big_endian-big_endian}
use cse.Mips.Text.{
  string_equals, valid_base, base_loop, last_three_zero, all_zero, str_to_i, str_to_i_from, digit,
}
use cse.Mips.Args.{validargs, parameters, base_endian, then_endian, is_arg}
use cse.Mips.Args.Options.{
  IsOutcome, validargs-IsOutcome, validargs_swap, base_first, endian_first, valid_base-aligned,
}
use cse.Mips.RoundTrip.Codes.{row_of}
use cse.Mips.RoundTrip.Recover.{RoundTrips}
use cse.Mips.RoundTrip.Fits.{with_opcode}
use cse.Mips.RoundTrip.Table.{decode-encode}
use cse.Mips.Main.{disassemble, put_word, in_order, assemble_found}
use cse.Mips.Main.Laws.{
  Program, FitsFrom, words_of, lines_of, disassemble-words_of, put_word-in_order,
}
use cse.Mips.Rejects.{assemble_found-branch}

abbrev three : ℕ → ℕ → ℕ → Three ℕ
three a b c = record { at0 = a; at1 = b; at2 = c }

abbrev blank : Instruction
blank = record { value = 0; info = no_entry; regs = three 0 0 0; extra = 0; args = three 0 0 0 }

abbrev with_args : ℕ → ℕ → ℕ → ℕ → Instruction
with_args e a b c = record blank { extra = e; args = three a b c }

-- `add $5,$6,$7`
add_value : (encode (with_opcode Opcode.op_add (with_args 0 5 6 7)) 0).1.value ≡ 0x00c72820
unfolding encode_open
add_value = refl

-- `lw $5,7($6)`
lw_value : (encode (with_opcode Opcode.op_lw (with_args 7 5 7 6)) 0).1.value ≡ 0x8cc50007
unfolding encode_open
lw_value = refl

-- `beq $7,$15,128` at 0x1000, with the offset in `extra`
beq_value :
    (encode (with_opcode Opcode.op_beq (with_args 0xfffffc1f 7 15 128)) 0x1000).1.value ≡ 0x10effc1f
unfolding encode_open
beq_value = refl

beq_decodes : (decode (record blank { value = 0x10effc1f }) 0x1000).1.args ≡ three 7 15 128
unfolding decode_open
beq_decodes = refl

swapped : big_endian 0x01020304 ≡ 0x04030201
unfolding big_endian swap_outer swap_middle
swapped = refl

decode-encode_example :
    RoundTrips (with_opcode Opcode.op_beq (with_args 0xfffffc1f 7 15 128)) 0x1000
unfolding is_ntyp
decode-encode_example =
    decode-encode Opcode.op_beq (with_args 0xfffffc1f 7 15 128) 0x1000
      (refl, omega arith, omega arith, omega arith, (omega arith, refl))

abbrev two_lines : Program
two_lines = (Opcode.op_addi, with_args 7 5 6 7) ∷ (Opcode.op_jr, with_args 0 31 0 0) ∷ []

two_lines-FitsFrom : FitsFrom 0x400000 two_lines
unfolding is_ntyp
two_lines-FitsFrom = (
  (refl, omega arith, omega arith, omega arith, omega arith),
  ((refl, omega arith, omega arith, omega arith, omega arith), tt),
)

disassemble-words_of_example :
    disassemble true 0x400000 blank (words_of true 0x400000 two_lines) ≡ (lines_of two_lines, true)
disassemble-words_of_example = disassemble-words_of true 0x400000 two_lines blank two_lines-FitsFrom

abbrev big_at_base : List (List ℕ)
big_at_base = base_first (codes "hw1") (codes "-d") (codes "40ff3000") (codes "b")

big_at_base_options : validargs big_at_base ≡ (true, 0x40ff3006)
unfolding validargs parameters base_endian then_endian is_arg string_equals valid_base base_loop
    last_three_zero all_zero str_to_i str_to_i_from digit
big_at_base_options = refl

validargs-IsOutcome_example : IsOutcome (validargs big_at_base)
validargs-IsOutcome_example = validargs-IsOutcome big_at_base

validargs_swap_example :
    validargs big_at_base
    ≡ validargs (endian_first (codes "hw1") (codes "-d") (codes "40ff3000") (codes "b"))
validargs_swap_example = validargs_swap (codes "hw1") (codes "-d") (codes "40ff3000") (codes "b")

base_valid : valid_base (codes "40ff3000") ≡ true
unfolding valid_base base_loop last_three_zero all_zero
base_valid = refl

valid_base-aligned_example :
    (str_to_i (codes "40ff3000") % 4096 ≡ 0) × (str_to_i (codes "40ff3000") < 2 ^ 32)
valid_base-aligned_example = valid_base-aligned (codes "40ff3000") base_valid

put_word-in_order_example :
    (put_word 4 (in_order true 0x10effc1f) ≡ 0x10 ∷ 0xef ∷ 0xfc ∷ 0x1f ∷ [])
    × (put_word 4 (in_order false 0x10effc1f) ≡ 0x1f ∷ 0xfc ∷ 0xef ∷ 0x10 ∷ [])
put_word-in_order_example =
    put_word-in_order 0x10 0xef 0xfc 0x1f (omega arith) (omega arith) (omega arith) (omega arith)

big_endian-big_endian_example : big_endian (big_endian 0x10effc1f) ≡ 0x10effc1f
big_endian-big_endian_example = big_endian-big_endian 0x10effc1f (omega arith)

-- `beq $7,$15,128` at 0x1000 is refused, though the disassembler prints it.
assemble_found-branch_example :
    assemble_found false 0x1000 blank
      (codes "beq $7,$15,128")
      (row_of Opcode.op_beq, 3, three 7 15 128)
    ≡ none
unfolding is_branch index_of opcode_eq
assemble_found-branch_example =
    assemble_found-branch false 0x1000 blank (codes "beq $7,$15,128") Opcode.op_beq 3
      (three 7 15 128) refl (omega arith)
