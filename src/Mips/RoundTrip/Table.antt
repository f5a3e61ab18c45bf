-- ===== src/Mips/RoundTrip/Table.antt =====
-- Assembling an instruction and disassembling the word gives the instruction back, for every entry
-- of `instrTable` that has a type.
use cse.Base.{ℕ, ◌/◌, ◌%◌, ◌^◌, ◌<◌, ◌≡◌, refl, some, arith, get_or}
use cse.Mips.Isa.{Opcode, Instruction, opcode_table}
use cse.Mips.Encode.{is_ntyp, is_branch}
use cse.Mips.Decode.{decode_opcode, decode_by}
use cse.Mips.RoundTrip.Steps.{special_of, bcond_of, decode_opcode_bcond, decode_opcode_plain}
use cse.Mips.RoundTrip.Recover.{RoundTrips}
use cse.Mips.RoundTrip.Codes.{row_of, code_of, row_known}
use cse.Mips.RoundTrip.Fits.{Fits, with_opcode}
use cse.Mips.Isa.{opcode_eq}
use cse.Mips.Encode.{index_of}
use cse.Mips.RoundTrip.Special.{special_row}
use cse.Mips.RoundTrip.Shapes.{
  imm_rt_rs, imm_rt_at_rs, imm_rt, branch_rs_rt, branch_rs, branch_bcond,
}
use cse.Mips.RoundTrip.Jumps.{shift_rd_rt, break_code, jump_target}

plain :
    (i : ℕ) (o : Opcode)
    → ((w : ℕ) → decode_by (get_or opcode_table i Opcode.illegl) w ≡ some o)
    → (w : ℕ) → w < 2 ^ 32
    → w / 2 ^ 26 ≡ i
    → decode_opcode w ≡ some o
plain i o e w fits p = decode_opcode_plain w fits i o p (e w)

bcond :
    (n : ℕ) (o : Opcode)
    → bcond_of n ≡ some o
    → (w : ℕ) → w < 2 ^ 32
    → w / 2 ^ 26 ≡ 1
    → w / 2 ^ 16 % 32 ≡ n
    → decode_opcode w ≡ some o
bcond n o e w fits p q = decode_opcode_bcond w fits n o p q e

-- An instruction whose arguments fit is encoded, and `decode` of its word at the same address gives
-- the same entry of the table and the same arguments. Registers are below 32, a shift count below
-- 32, an immediate is a sign-extended 16-bit number and equals `extra`, the target of a branch is
-- that of the offset in `extra`, a jump stays in its segment, and the code of `break` has 19 bits.
pub decode-encode :
    (o : Opcode) (ip : Instruction) (addr : ℕ)
    → Fits (with_opcode o ip) addr
    → RoundTrips (with_opcode o ip) addr
unfolding special_of bcond_of is_ntyp opcode_eq is_branch index_of decode_by
decode-encode Opcode.op_add ip addr h =
    special_row Opcode.op_add ip addr 0 0 0 refl refl (omega arith) (omega arith) (omega arith)
decode-encode Opcode.op_addi ip addr h =
    imm_rt_rs Opcode.op_addi (row_of Opcode.op_addi).format (code_of Opcode.op_addi) ip addr h.1
      (row_known Opcode.op_addi refl) refl refl (plain 8 Opcode.op_addi (λ w. refl)) (omega arith)
      (omega arith) h.2 h.3 h.4
decode-encode Opcode.op_addiu ip addr h =
    imm_rt_rs Opcode.op_addiu (row_of Opcode.op_addiu).format (code_of Opcode.op_addiu) ip addr h.1
      (row_known Opcode.op_addiu refl) refl refl (plain 9 Opcode.op_addiu (λ w. refl)) (omega arith)
      (omega arith) h.2 h.3 h.4
decode-encode Opcode.op_addu ip addr h =
    special_row Opcode.op_addu ip addr 0 0 0 refl refl (omega arith) (omega arith) (omega arith)
decode-encode Opcode.op_and ip addr h =
    special_row Opcode.op_and ip addr 0 0 0 refl refl (omega arith) (omega arith) (omega arith)
decode-encode Opcode.op_andi ip addr h =
    imm_rt_rs Opcode.op_andi (row_of Opcode.op_andi).format (code_of Opcode.op_andi) ip addr h.1
      (row_known Opcode.op_andi refl) refl refl (plain 12 Opcode.op_andi (λ w. refl)) (omega arith)
      (omega arith) h.2 h.3 h.4
decode-encode Opcode.op_beq ip addr h =
    branch_rs_rt Opcode.op_beq (row_of Opcode.op_beq).format (code_of Opcode.op_beq) ip addr h.1
      (row_known Opcode.op_beq refl) refl refl (plain 4 Opcode.op_beq (λ w. refl)) (omega arith)
      (omega arith) h.2 h.3 h.4
decode-encode Opcode.op_bgez ip addr h =
    branch_bcond Opcode.op_bgez (row_of Opcode.op_bgez).format (code_of Opcode.op_bgez) ip addr h.1
      (row_known Opcode.op_bgez refl) refl refl (bcond 1 Opcode.op_bgez refl) (omega arith)
      (omega arith) (omega arith) h.2 h.3 h.4
decode-encode Opcode.op_bgezal ip addr h =
    branch_bcond Opcode.op_bgezal (row_of Opcode.op_bgezal).format (code_of Opcode.op_bgezal) ip
      addr h.1 (row_known Opcode.op_bgezal refl) refl refl (bcond 17 Opcode.op_bgezal refl)
      (omega arith) (omega arith) (omega arith) h.2 h.3 h.4
decode-encode Opcode.op_bgtz ip addr h =
    branch_rs Opcode.op_bgtz (row_of Opcode.op_bgtz).format (code_of Opcode.op_bgtz) ip addr h.1
      (row_known Opcode.op_bgtz refl) refl refl (plain 7 Opcode.op_bgtz (λ w. refl)) (omega arith)
      (omega arith) h.2 h.3 h.4
decode-encode Opcode.op_blez ip addr h =
    branch_rs Opcode.op_blez (row_of Opcode.op_blez).format (code_of Opcode.op_blez) ip addr h.1
      (row_known Opcode.op_blez refl) refl refl (plain 6 Opcode.op_blez (λ w. refl)) (omega arith)
      (omega arith) h.2 h.3 h.4
decode-encode Opcode.op_bltz ip addr h =
    branch_bcond Opcode.op_bltz (row_of Opcode.op_bltz).format (code_of Opcode.op_bltz) ip addr h.1
      (row_known Opcode.op_bltz refl) refl refl (bcond 0 Opcode.op_bltz refl) (omega arith)
      (omega arith) (omega arith) h.2 h.3 h.4
decode-encode Opcode.op_bltzal ip addr h =
    branch_bcond Opcode.op_bltzal (row_of Opcode.op_bltzal).format (code_of Opcode.op_bltzal) ip
      addr h.1 (row_known Opcode.op_bltzal refl) refl refl (bcond 16 Opcode.op_bltzal refl)
      (omega arith) (omega arith) (omega arith) h.2 h.3 h.4
decode-encode Opcode.op_bne ip addr h =
    branch_rs_rt Opcode.op_bne (row_of Opcode.op_bne).format (code_of Opcode.op_bne) ip addr h.1
      (row_known Opcode.op_bne refl) refl refl (plain 5 Opcode.op_bne (λ w. refl)) (omega arith)
      (omega arith) h.2 h.3 h.4
decode-encode Opcode.op_div ip addr h =
    special_row Opcode.op_div ip addr 0 0 0 refl refl (omega arith) (omega arith) (omega arith)
decode-encode Opcode.op_divu ip addr h =
    special_row Opcode.op_divu ip addr 0 0 0 refl refl (omega arith) (omega arith) (omega arith)
decode-encode Opcode.op_j ip addr h =
    jump_target Opcode.op_j (row_of Opcode.op_j).format (code_of Opcode.op_j) ip addr
      (row_known Opcode.op_j refl) refl (plain 2 Opcode.op_j (λ w. refl)) (omega arith)
      (omega arith) h.1 h.2 h.3 h.4
decode-encode Opcode.op_jal ip addr h =
    jump_target Opcode.op_jal (row_of Opcode.op_jal).format (code_of Opcode.op_jal) ip addr
      (row_known Opcode.op_jal refl) refl (plain 3 Opcode.op_jal (λ w. refl)) (omega arith)
      (omega arith) h.1 h.2 h.3 h.4
decode-encode Opcode.op_jalr ip addr h =
    special_row Opcode.op_jalr ip addr 0 0 0 refl refl (omega arith) (omega arith) (omega arith)
decode-encode Opcode.op_jr ip addr h =
    special_row Opcode.op_jr ip addr 0 0 0 refl refl (omega arith) (omega arith) (omega arith)
decode-encode Opcode.op_lb ip addr h =
    imm_rt_at_rs Opcode.op_lb (row_of Opcode.op_lb).format (code_of Opcode.op_lb) ip addr h.1
      (row_known Opcode.op_lb refl) refl refl (plain 32 Opcode.op_lb (λ w. refl)) (omega arith)
      (omega arith) h.2 h.3 h.4
decode-encode Opcode.op_lbu ip addr h =
    imm_rt_at_rs Opcode.op_lbu (row_of Opcode.op_lbu).format (code_of Opcode.op_lbu) ip addr h.1
      (row_known Opcode.op_lbu refl) refl refl (plain 36 Opcode.op_lbu (λ w. refl)) (omega arith)
      (omega arith) h.2 h.3 h.4
decode-encode Opcode.op_lh ip addr h =
    imm_rt_at_rs Opcode.op_lh (row_of Opcode.op_lh).format (code_of Opcode.op_lh) ip addr h.1
      (row_known Opcode.op_lh refl) refl refl (plain 33 Opcode.op_lh (λ w. refl)) (omega arith)
      (omega arith) h.2 h.3 h.4
decode-encode Opcode.op_lhu ip addr h =
    imm_rt_at_rs Opcode.op_lhu (row_of Opcode.op_lhu).format (code_of Opcode.op_lhu) ip addr h.1
      (row_known Opcode.op_lhu refl) refl refl (plain 37 Opcode.op_lhu (λ w. refl)) (omega arith)
      (omega arith) h.2 h.3 h.4
decode-encode Opcode.op_lui ip addr h =
    imm_rt Opcode.op_lui (row_of Opcode.op_lui).format (code_of Opcode.op_lui) ip addr h.1
      (row_known Opcode.op_lui refl) refl refl (plain 15 Opcode.op_lui (λ w. refl)) (omega arith)
      (omega arith) h.2 h.3 h.4
decode-encode Opcode.op_lw ip addr h =
    imm_rt_at_rs Opcode.op_lw (row_of Opcode.op_lw).format (code_of Opcode.op_lw) ip addr h.1
      (row_known Opcode.op_lw refl) refl refl (plain 35 Opcode.op_lw (λ w. refl)) (omega arith)
      (omega arith) h.2 h.3 h.4
decode-encode Opcode.op_lwl ip addr h =
    imm_rt_at_rs Opcode.op_lwl (row_of Opcode.op_lwl).format (code_of Opcode.op_lwl) ip addr h.1
      (row_known Opcode.op_lwl refl) refl refl (plain 34 Opcode.op_lwl (λ w. refl)) (omega arith)
      (omega arith) h.2 h.3 h.4
decode-encode Opcode.op_lwr ip addr h =
    imm_rt_at_rs Opcode.op_lwr (row_of Opcode.op_lwr).format (code_of Opcode.op_lwr) ip addr h.1
      (row_known Opcode.op_lwr refl) refl refl (plain 38 Opcode.op_lwr (λ w. refl)) (omega arith)
      (omega arith) h.2 h.3 h.4
decode-encode Opcode.op_mfhi ip addr h =
    special_row Opcode.op_mfhi ip addr 0 0 0 refl refl (omega arith) (omega arith) (omega arith)
decode-encode Opcode.op_mflo ip addr h =
    special_row Opcode.op_mflo ip addr 0 0 0 refl refl (omega arith) (omega arith) (omega arith)
decode-encode Opcode.op_mthi ip addr h =
    special_row Opcode.op_mthi ip addr 0 0 0 refl refl (omega arith) (omega arith) (omega arith)
decode-encode Opcode.op_mtlo ip addr h =
    special_row Opcode.op_mtlo ip addr 0 0 0 refl refl (omega arith) (omega arith) (omega arith)
decode-encode Opcode.op_mult ip addr h =
    special_row Opcode.op_mult ip addr 0 0 0 refl refl (omega arith) (omega arith) (omega arith)
decode-encode Opcode.op_multu ip addr h =
    special_row Opcode.op_multu ip addr 0 0 0 refl refl (omega arith) (omega arith) (omega arith)
decode-encode Opcode.op_nor ip addr h =
    special_row Opcode.op_nor ip addr 0 0 0 refl refl (omega arith) (omega arith) (omega arith)
decode-encode Opcode.op_or ip addr h =
    special_row Opcode.op_or ip addr 0 0 0 refl refl (omega arith) (omega arith) (omega arith)
decode-encode Opcode.op_ori ip addr h =
    imm_rt_rs Opcode.op_ori (row_of Opcode.op_ori).format (code_of Opcode.op_ori) ip addr h.1
      (row_known Opcode.op_ori refl) refl refl (plain 13 Opcode.op_ori (λ w. refl)) (omega arith)
      (omega arith) h.2 h.3 h.4
decode-encode Opcode.op_sb ip addr h =
    imm_rt_at_rs Opcode.op_sb (row_of Opcode.op_sb).format (code_of Opcode.op_sb) ip addr h.1
      (row_known Opcode.op_sb refl) refl refl (plain 40 Opcode.op_sb (λ w. refl)) (omega arith)
      (omega arith) h.2 h.3 h.4
decode-encode Opcode.op_sh ip addr h =
    imm_rt_at_rs Opcode.op_sh (row_of Opcode.op_sh).format (code_of Opcode.op_sh) ip addr h.1
      (row_known Opcode.op_sh refl) refl refl (plain 41 Opcode.op_sh (λ w. refl)) (omega arith)
      (omega arith) h.2 h.3 h.4
decode-encode Opcode.op_sll ip addr h =
    shift_rd_rt Opcode.op_sll (row_of Opcode.op_sll).format (code_of Opcode.op_sll) ip addr
      (row_known Opcode.op_sll refl) refl refl (omega arith) h.2 h.3 h.4
decode-encode Opcode.op_sllv ip addr h =
    special_row Opcode.op_sllv ip addr 0 0 0 refl refl (omega arith) (omega arith) (omega arith)
decode-encode Opcode.op_slt ip addr h =
    special_row Opcode.op_slt ip addr 0 0 0 refl refl (omega arith) (omega arith) (omega arith)
decode-encode Opcode.op_slti ip addr h =
    imm_rt_rs Opcode.op_slti (row_of Opcode.op_slti).format (code_of Opcode.op_slti) ip addr h.1
      (row_known Opcode.op_slti refl) refl refl (plain 10 Opcode.op_slti (λ w. refl)) (omega arith)
      (omega arith) h.2 h.3 h.4
decode-encode Opcode.op_sltiu ip addr h =
    imm_rt_rs Opcode.op_sltiu (row_of Opcode.op_sltiu).format (code_of Opcode.op_sltiu) ip addr h.1
      (row_known Opcode.op_sltiu refl) refl refl (plain 11 Opcode.op_sltiu (λ w. refl))
      (omega arith) (omega arith) h.2 h.3 h.4
decode-encode Opcode.op_sltu ip addr h =
    special_row Opcode.op_sltu ip addr 0 0 0 refl refl (omega arith) (omega arith) (omega arith)
decode-encode Opcode.op_sra ip addr h =
    shift_rd_rt Opcode.op_sra (row_of Opcode.op_sra).format (code_of Opcode.op_sra) ip addr
      (row_known Opcode.op_sra refl) refl refl (omega arith) h.2 h.3 h.4
decode-encode Opcode.op_srav ip addr h =
    special_row Opcode.op_srav ip addr 0 0 0 refl refl (omega arith) (omega arith) (omega arith)
decode-encode Opcode.op_srl ip addr h =
    shift_rd_rt Opcode.op_srl (row_of Opcode.op_srl).format (code_of Opcode.op_srl) ip addr
      (row_known Opcode.op_srl refl) refl refl (omega arith) h.2 h.3 h.4
decode-encode Opcode.op_srlv ip addr h =
    special_row Opcode.op_srlv ip addr 0 0 0 refl refl (omega arith) (omega arith) (omega arith)
decode-encode Opcode.op_sub ip addr h =
    special_row Opcode.op_sub ip addr 0 0 0 refl refl (omega arith) (omega arith) (omega arith)
decode-encode Opcode.op_subu ip addr h =
    special_row Opcode.op_subu ip addr 0 0 0 refl refl (omega arith) (omega arith) (omega arith)
decode-encode Opcode.op_sw ip addr h =
    imm_rt_at_rs Opcode.op_sw (row_of Opcode.op_sw).format (code_of Opcode.op_sw) ip addr h.1
      (row_known Opcode.op_sw refl) refl refl (plain 43 Opcode.op_sw (λ w. refl)) (omega arith)
      (omega arith) h.2 h.3 h.4
decode-encode Opcode.op_swl ip addr h =
    imm_rt_at_rs Opcode.op_swl (row_of Opcode.op_swl).format (code_of Opcode.op_swl) ip addr h.1
      (row_known Opcode.op_swl refl) refl refl (plain 42 Opcode.op_swl (λ w. refl)) (omega arith)
      (omega arith) h.2 h.3 h.4
decode-encode Opcode.op_swr ip addr h =
    imm_rt_at_rs Opcode.op_swr (row_of Opcode.op_swr).format (code_of Opcode.op_swr) ip addr h.1
      (row_known Opcode.op_swr refl) refl refl (plain 46 Opcode.op_swr (λ w. refl)) (omega arith)
      (omega arith) h.2 h.3 h.4
decode-encode Opcode.op_xor ip addr h =
    special_row Opcode.op_xor ip addr 0 0 0 refl refl (omega arith) (omega arith) (omega arith)
decode-encode Opcode.op_xori ip addr h =
    imm_rt_rs Opcode.op_xori (row_of Opcode.op_xori).format (code_of Opcode.op_xori) ip addr h.1
      (row_known Opcode.op_xori refl) refl refl (plain 14 Opcode.op_xori (λ w. refl)) (omega arith)
      (omega arith) h.2 h.3 h.4
decode-encode Opcode.op_syscall ip addr h =
    special_row Opcode.op_syscall ip addr 0 0 0 refl refl (omega arith) (omega arith) (omega arith)
decode-encode Opcode.op_break ip addr h =
    break_code Opcode.op_break (row_of Opcode.op_break).format (code_of Opcode.op_break) ip addr
      (row_known Opcode.op_break refl) refl refl (omega arith) h.2 h.3 h.4
decode-encode o ip addr h = cc h.0
