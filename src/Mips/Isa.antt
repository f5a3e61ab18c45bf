-- ===== src/Mips/Isa.antt =====
-- `MIPS Convertor/include/instruction.h` and `MIPS Convertor/src/instr_table.c`: the opcodes, the
-- instruction types and argument sources, the decoded instruction, and the three tables.
use cse.Base.{ℕ, List, [], ◌∷◌, Bool, ◌==◌, codes}
use Prim.Native.String.{String}

-- `enum opcode`, in the order of the source.
pub data Opcode : Type 0 where
  op_0 op_add op_addi op_addiu op_addu op_and op_andi op_beq op_bgez op_bgezal op_bgtz op_blez :
      Opcode
  op_bltz op_bltzal op_bne op_15 op_div op_divu op_j op_jal op_jalr op_jr op_lb op_lbu op_lh :
      Opcode
  op_lhu op_lui op_lw op_lwl op_lwr op_30 op_mfhi op_mflo op_33 op_mthi op_mtlo op_mult : Opcode
  op_multu op_nor op_or op_ori op_rfe op_sb op_sh op_sll op_sllv op_slt op_slti op_sltiu : Opcode
  op_sltu op_sra op_srav op_srl op_srlv op_sub op_subu op_sw op_swl op_swr op_xor op_xori : Opcode
  op_syscall op_break op_unimp special bcond illegl : Opcode

-- The value of the enumerator.
abbrev pub opcode_num : Opcode → ℕ
opcode_num op_0 = 0
opcode_num op_add = 1
opcode_num op_addi = 2
opcode_num op_addiu = 3
opcode_num op_addu = 4
opcode_num op_and = 5
opcode_num op_andi = 6
opcode_num op_beq = 7
opcode_num op_bgez = 8
opcode_num op_bgezal = 9
opcode_num op_bgtz = 10
opcode_num op_blez = 11
opcode_num op_bltz = 12
opcode_num op_bltzal = 13
opcode_num op_bne = 14
opcode_num op_15 = 15
opcode_num op_div = 16
opcode_num op_divu = 17
opcode_num op_j = 18
opcode_num op_jal = 19
opcode_num op_jalr = 20
opcode_num op_jr = 21
opcode_num op_lb = 22
opcode_num op_lbu = 23
opcode_num op_lh = 24
opcode_num op_lhu = 25
opcode_num op_lui = 26
opcode_num op_lw = 27
opcode_num op_lwl = 28
opcode_num op_lwr = 29
opcode_num op_30 = 30
opcode_num op_mfhi = 31
opcode_num op_mflo = 32
opcode_num op_33 = 33
opcode_num op_mthi = 34
opcode_num op_mtlo = 35
opcode_num op_mult = 36
opcode_num op_multu = 37
opcode_num op_nor = 38
opcode_num op_or = 39
opcode_num op_ori = 40
opcode_num op_rfe = 41
opcode_num op_sb = 42
opcode_num op_sh = 43
opcode_num op_sll = 44
opcode_num op_sllv = 45
opcode_num op_slt = 46
opcode_num op_slti = 47
opcode_num op_sltiu = 48
opcode_num op_sltu = 49
opcode_num op_sra = 50
opcode_num op_srav = 51
opcode_num op_srl = 52
opcode_num op_srlv = 53
opcode_num op_sub = 54
opcode_num op_subu = 55
opcode_num op_sw = 56
opcode_num op_swl = 57
opcode_num op_swr = 58
opcode_num op_xor = 59
opcode_num op_xori = 60
opcode_num op_syscall = 61
opcode_num op_break = 62
opcode_num op_unimp = 63
opcode_num special = 64
opcode_num bcond = 65
opcode_num illegl = 66

-- `a == b` on enumerators.
unfoldable pub opcode_eq : Opcode → Opcode → Bool
opcode_eq a b = opcode_num a == opcode_num b

-- `enum type`
pub data InstrType : Type 0 where
  ntyp ityp jtyp rtyp : InstrType

-- `enum source`
pub data Source : Type 0 where
  nsrc rs rt rd extra : Source

-- An array of three, as `srcs`, `regs` and `args` are.
pub record Three {ℓ} (A : Type ℓ) : Type ℓ where
  pub at0 : A
  pub at1 : A
  pub at2 : A

-- `struct instr_info`
pub record InstrInfo : Type 0 where
  pub opcode : Opcode
  pub type : InstrType
  pub srcs : Three Source
  pub format : List ℕ

-- `struct instruction`. The `int` fields are bit patterns below 2 ^ 32.
pub record Instruction : Type 0 where
  pub value : ℕ
  pub info : InstrInfo
  pub regs : Three ℕ
  pub extra : ℕ
  pub args : Three ℕ

-- Bits 31:26 of the word to the opcode.
abbrev pub opcode_table : List Opcode
opcode_table =
    special ∷ bcond ∷ op_j ∷ op_jal ∷ op_beq ∷ op_bne ∷ op_blez ∷ op_bgtz ∷ op_addi ∷ op_addiu
    ∷ op_slti ∷ op_sltiu ∷ op_andi ∷ op_ori ∷ op_xori ∷ op_lui ∷ op_unimp ∷ op_unimp ∷ op_unimp
    ∷ op_unimp ∷ illegl ∷ illegl ∷ illegl ∷ illegl ∷ illegl ∷ illegl ∷ illegl ∷ illegl ∷ illegl
    ∷ illegl ∷ illegl ∷ illegl ∷ op_lb ∷ op_lh ∷ op_lwl ∷ op_lw ∷ op_lbu ∷ op_lhu ∷ op_lwr ∷ illegl
    ∷ op_sb ∷ op_sh ∷ op_swl ∷ op_sw ∷ illegl ∷ illegl ∷ op_swr ∷ illegl ∷ op_unimp ∷ op_unimp
    ∷ op_unimp ∷ op_unimp ∷ illegl ∷ illegl ∷ illegl ∷ illegl ∷ op_unimp ∷ op_unimp ∷ op_unimp
    ∷ op_unimp ∷ illegl ∷ illegl ∷ illegl ∷ illegl ∷ []

-- Bits 5:0 of a SPECIAL word to the opcode.
abbrev pub special_table : List Opcode
special_table =
    op_sll ∷ illegl ∷ op_srl ∷ op_sra ∷ op_sllv ∷ illegl ∷ op_srlv ∷ op_srav ∷ op_jr ∷ op_jalr
    ∷ illegl ∷ illegl ∷ op_syscall ∷ op_break ∷ illegl ∷ illegl ∷ op_mfhi ∷ op_mthi ∷ op_mflo
    ∷ op_mtlo ∷ illegl ∷ illegl ∷ illegl ∷ illegl ∷ op_mult ∷ op_multu ∷ op_div ∷ op_divu ∷ illegl
    ∷ illegl ∷ illegl ∷ illegl ∷ op_add ∷ op_addu ∷ op_sub ∷ op_subu ∷ op_and ∷ op_or ∷ op_xor
    ∷ op_nor ∷ illegl ∷ illegl ∷ op_slt ∷ op_sltu ∷ illegl ∷ illegl ∷ illegl ∷ illegl ∷ illegl
    ∷ illegl ∷ illegl ∷ illegl ∷ illegl ∷ illegl ∷ illegl ∷ illegl ∷ illegl ∷ illegl ∷ illegl
    ∷ illegl ∷ illegl ∷ illegl ∷ illegl ∷ illegl ∷ []

abbrev row : Opcode → InstrType → Source → Source → Source → String → InstrInfo
row o t a b c f = record {
  opcode = o;
  type = t;
  srcs = record { at0 = a; at1 = b; at2 = c };
  format = codes f;
}

-- What is known of each instruction.
abbrev pub instr_table : List InstrInfo
instr_table =
    row illegl ntyp nsrc nsrc nsrc "ILLEGAL"
    ∷ row op_add rtyp rd rs rt "add $%d,$%d,$%d"
    ∷ row op_addi ityp rt rs extra "addi $%d,$%d,%d"
    ∷ row op_addiu ityp rt rs extra "addiu $%d,$%d,%d"
    ∷ row op_addu rtyp rd rs rt "addu $%d,$%d,$%d"
    ∷ row op_and rtyp rd rs rt "and $%d,$%d,$%d"
    ∷ row op_andi ityp rt rs extra "andi $%d,$%d,0x%x"
    ∷ row op_beq ityp rs rt extra "beq $%d,$%d,%d"
    ∷ row op_bgez ityp rs extra nsrc "bgez $%d,%d"
    ∷ row op_bgezal ityp rs extra nsrc "bgezal $%d,%d"
    ∷ row op_bgtz ityp rs extra nsrc "bgtz $%d,%d"
    ∷ row op_blez ityp rs extra nsrc "blez $%d,%d"
    ∷ row op_bltz ityp rs extra nsrc "bltz $%d,%d"
    ∷ row op_bltzal ityp rs extra nsrc "bltzal $%d,%d"
    ∷ row op_bne ityp rs rt extra "bne $%d,$%d,%d"
    ∷ row illegl ntyp nsrc nsrc nsrc "ILLEGAL"
    ∷ row op_div rtyp rs rt nsrc "div $%d,$%d"
    ∷ row op_divu rtyp rs rt nsrc "divu $%d,$%d"
    ∷ row op_j jtyp extra nsrc nsrc "j 0x%x"
    ∷ row op_jal jtyp extra nsrc nsrc "jal 0x%x"
    ∷ row op_jalr rtyp rd rs nsrc "jalr $%d,$%d"
    ∷ row op_jr rtyp rs nsrc nsrc "jr $%d"
    ∷ row op_lb ityp rt extra rs "lb $%d,%d($%d)"
    ∷ row op_lbu ityp rt extra rs "lbu $%d,%d($%d)"
    ∷ row op_lh ityp rt extra rs "lh $%d,%d($%d)"
    ∷ row op_lhu ityp rt extra rs "lhu $%d,%d($%d)"
    ∷ row op_lui ityp rt extra nsrc "lui $%d,0x%x"
    ∷ row op_lw ityp rt extra rs "lw $%d,%d($%d)"
    ∷ row op_lwl ityp rt extra rs "lwl $%d,%d($%d)"
    ∷ row op_lwr ityp rt extra rs "lwr $%d,%d($%d)"
    ∷ row illegl ntyp nsrc nsrc nsrc "ILLEGAL"
    ∷ row op_mfhi rtyp rd nsrc nsrc "mfhi $%d"
    ∷ row op_mflo rtyp rd nsrc nsrc "mflo $%d"
    ∷ row illegl ntyp nsrc nsrc nsrc "ILLEGAL"
    ∷ row op_mthi rtyp rs nsrc nsrc "mthi $%d"
    ∷ row op_mtlo rtyp rs nsrc nsrc "mtlo $%d"
    ∷ row op_mult rtyp rs rt nsrc "mult $%d,$%d"
    ∷ row op_multu rtyp rs rt nsrc "multu $%d,$%d"
    ∷ row op_nor rtyp rd rs rt "nor $%d,$%d,$%d"
    ∷ row op_or rtyp rd rs rt "or $%d,$%d,$%d"
    ∷ row op_ori ityp rt rs extra "ori $%d,$%d,0x%x"
    ∷ row op_rfe ntyp nsrc nsrc nsrc "rfe"
    ∷ row op_sb ityp rt extra rs "sb $%d,%d($%d)"
    ∷ row op_sh ityp rt extra rs "sh $%d,%d($%d)"
    ∷ row op_sll rtyp rd rt extra "sll $%d,$%d,%d"
    ∷ row op_sllv rtyp rd rt rs "sllv $%d,$%d,$%d"
    ∷ row op_slt rtyp rd rs rt "slt $%d,$%d,$%d"
    ∷ row op_slti ityp rt rs extra "slti $%d,$%d,%d"
    ∷ row op_sltiu ityp rt rs extra "sltiu $%d,$%d,%d"
    ∷ row op_sltu rtyp rd rs rt "sltu $%d,$%d,$%d"
    ∷ row op_sra rtyp rd rt extra "sra $%d,$%d,%d"
    ∷ row op_srav rtyp rd rt rs "srav $%d,$%d,$%d"
    ∷ row op_srl rtyp rd rt extra "srl $%d,$%d,%d"
    ∷ row op_srlv rtyp rd rt rs "srlv $%d,$%d,$%d"
    ∷ row op_sub rtyp rd rs rt "sub $%d,$%d,$%d"
    ∷ row op_subu rtyp rd rs rt "subu $%d,$%d,$%d"
    ∷ row op_sw ityp rt extra rs "sw $%d,%d($%d)"
    ∷ row op_swl ityp rt extra rs "swl $%d,%d($%d)"
    ∷ row op_swr ityp rt extra rs "swr $%d,%d($%d)"
    ∷ row op_xor rtyp rd rs rt "xor $%d,$%d,$%d"
    ∷ row op_xori ityp rt rs extra "xori $%d,$%d,0x%x"
    ∷ row op_syscall rtyp nsrc nsrc nsrc "syscall"
    ∷ row op_break rtyp extra nsrc nsrc "break 0x%x"
    ∷ row op_unimp ntyp nsrc nsrc nsrc "Unimplemented"
    ∷ []

-- The first entry, which stands for opcodes that are not used.
abbrev pub no_entry : InstrInfo
no_entry = row illegl ntyp nsrc nsrc nsrc "ILLEGAL"
