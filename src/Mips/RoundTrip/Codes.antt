-- ===== src/Mips/RoundTrip/Codes.antt =====
-- The opcodes and function codes of the instruction set, and that the tables of the program agree
-- with them.
use cse.Base.{ℕ, ◌≡◌, refl, false, some, ◌*◌, ◌+◌, ◌^◌, get_or}
use cse.Mips.Isa.{Opcode, InstrInfo, instr_table, no_entry, opcode_num}
use cse.Mips.Encode.{encode_opcode, encode_open, is_ntyp}
use cse.Mips.Decode.{find_info, decode_open}

-- The entry of `instrTable` with the index of the opcode.
abbrev pub row_of : Opcode → InstrInfo
row_of o = get_or instr_table (opcode_num o) no_entry

-- The bits that identify the instruction: bits 31:26, and 5:0 or 20:16 with them.
abbrev pub code_of : Opcode → ℕ
code_of Opcode.op_add = 32
code_of Opcode.op_addi = 8 * 2 ^ 26
code_of Opcode.op_addiu = 9 * 2 ^ 26
code_of Opcode.op_addu = 33
code_of Opcode.op_and = 36
code_of Opcode.op_andi = 12 * 2 ^ 26
code_of Opcode.op_beq = 4 * 2 ^ 26
code_of Opcode.op_bgez = 2 ^ 26 + 1 * 2 ^ 16
code_of Opcode.op_bgezal = 2 ^ 26 + 17 * 2 ^ 16
code_of Opcode.op_bgtz = 7 * 2 ^ 26
code_of Opcode.op_blez = 6 * 2 ^ 26
code_of Opcode.op_bltz = 1 * 2 ^ 26
code_of Opcode.op_bltzal = 2 ^ 26 + 16 * 2 ^ 16
code_of Opcode.op_bne = 5 * 2 ^ 26
code_of Opcode.op_div = 26
code_of Opcode.op_divu = 27
code_of Opcode.op_j = 2 * 2 ^ 26
code_of Opcode.op_jal = 3 * 2 ^ 26
code_of Opcode.op_jalr = 9
code_of Opcode.op_jr = 8
code_of Opcode.op_lb = 32 * 2 ^ 26
code_of Opcode.op_lbu = 36 * 2 ^ 26
code_of Opcode.op_lh = 33 * 2 ^ 26
code_of Opcode.op_lhu = 37 * 2 ^ 26
code_of Opcode.op_lui = 15 * 2 ^ 26
code_of Opcode.op_lw = 35 * 2 ^ 26
code_of Opcode.op_lwl = 34 * 2 ^ 26
code_of Opcode.op_lwr = 38 * 2 ^ 26
code_of Opcode.op_mfhi = 16
code_of Opcode.op_mflo = 18
code_of Opcode.op_mthi = 17
code_of Opcode.op_mtlo = 19
code_of Opcode.op_mult = 24
code_of Opcode.op_multu = 25
code_of Opcode.op_nor = 39
code_of Opcode.op_or = 37
code_of Opcode.op_ori = 13 * 2 ^ 26
code_of Opcode.op_rfe = 0
code_of Opcode.op_sb = 40 * 2 ^ 26
code_of Opcode.op_sh = 41 * 2 ^ 26
code_of Opcode.op_sll = 0
code_of Opcode.op_sllv = 4
code_of Opcode.op_slt = 42
code_of Opcode.op_slti = 10 * 2 ^ 26
code_of Opcode.op_sltiu = 11 * 2 ^ 26
code_of Opcode.op_sltu = 43
code_of Opcode.op_sra = 3
code_of Opcode.op_srav = 7
code_of Opcode.op_srl = 2
code_of Opcode.op_srlv = 6
code_of Opcode.op_sub = 34
code_of Opcode.op_subu = 35
code_of Opcode.op_sw = 43 * 2 ^ 26
code_of Opcode.op_swl = 42 * 2 ^ 26
code_of Opcode.op_swr = 46 * 2 ^ 26
code_of Opcode.op_xor = 38
code_of Opcode.op_xori = 14 * 2 ^ 26
code_of Opcode.op_syscall = 12
code_of Opcode.op_break = 13
code_of Opcode.op_unimp = 16 * 2 ^ 26
code_of o = 1

-- Each entry with a type encodes to its code, and is found again by its opcode.
pub row_known :
    (o : Opcode)
    → is_ntyp (row_of o).type ≡ false
    → (is_ntyp (row_of o).type ≡ false)
      × (encode_opcode (row_of o) ≡ some (code_of o))
      × ((old : InstrInfo) → find_info o instr_table old ≡ row_of o)
unfolding encode_open decode_open
row_known Opcode.op_0 h = cc
row_known Opcode.op_15 h = cc
row_known Opcode.op_30 h = cc
row_known Opcode.op_33 h = cc
row_known Opcode.op_rfe h = cc
row_known Opcode.special h = cc
row_known Opcode.bcond h = cc
row_known Opcode.illegl h = cc
row_known o h = (h, refl, λ old. refl)
