-- ===== src/Mips/RoundTrip/Fits.antt =====
-- Which arguments an instruction can have: those that `encode` puts into the word unchanged.
use cse.Base.{ℕ, ◌/◌, ◌%◌, ◌^◌, ◌<◌, ◌≡◌, false}
use cse.Base.Word.{◌<<◌, ◌+w◌}
use cse.Mips.Isa.{Opcode, InstrType, Source, InstrInfo, Instruction}
use cse.Mips.Encode.{is_ntyp}
use cse.Mips.RoundTrip.Extra.{IsShort}
use cse.Mips.RoundTrip.Codes.{row_of}

-- The target `a` of a branch at `addr`, where `e` is its offset in words from the next instruction.
abbrev pub BranchFits : ℕ → ℕ → ℕ → Type 0
BranchFits e addr a = IsShort e × (a ≡ (e << 2) +w (addr +w 4))

-- `e` is `ip->extra` and `a` the argument with source EXTRA.
abbrev pub TypedFits : InstrType → ℕ → ℕ → ℕ → Type 0
TypedFits InstrType.rtyp e addr a = a < 32
TypedFits InstrType.ityp e addr a = (e ≡ a) × IsShort a
TypedFits InstrType.jtyp e addr a =
    (e ≡ a)
    × (a % 4 ≡ 0)
    × (a < 2 ^ 32)
    × (a / 2 ^ 28 ≡ addr / 2 ^ 28)
    × ((addr +w 4) / 2 ^ 28 ≡ addr / 2 ^ 28)
TypedFits InstrType.ntyp e addr a = ⊥

abbrev pub ExtraFits : Opcode → InstrType → ℕ → ℕ → ℕ → Type 0
ExtraFits Opcode.op_break t e addr a = a < 2 ^ 19
ExtraFits Opcode.op_beq t e addr a = BranchFits e addr a
ExtraFits Opcode.op_bgez t e addr a = BranchFits e addr a
ExtraFits Opcode.op_bgezal t e addr a = BranchFits e addr a
ExtraFits Opcode.op_bgtz t e addr a = BranchFits e addr a
ExtraFits Opcode.op_blez t e addr a = BranchFits e addr a
ExtraFits Opcode.op_bltz t e addr a = BranchFits e addr a
ExtraFits Opcode.op_bltzal t e addr a = BranchFits e addr a
ExtraFits Opcode.op_bne t e addr a = BranchFits e addr a
ExtraFits o t e addr a = TypedFits t e addr a

abbrev pub ArgFits : InstrInfo → ℕ → ℕ → Source → ℕ → Type 0
ArgFits info e addr Source.nsrc a = a ≡ 0
ArgFits info e addr Source.extra a = ExtraFits info.opcode info.type e addr a
ArgFits info e addr s a = a < 32

abbrev pub Fits : Instruction → ℕ → Type 0
Fits ip addr =
    (is_ntyp ip.info.type ≡ false)
    × (addr < 2 ^ 32)
    × ArgFits ip.info ip.extra addr ip.info.srcs.at0 ip.args.at0
    × ArgFits ip.info ip.extra addr ip.info.srcs.at1 ip.args.at1
    × ArgFits ip.info ip.extra addr ip.info.srcs.at2 ip.args.at2

-- The instruction with the entry of the table for an opcode.
abbrev pub with_opcode : Opcode → Instruction → Instruction
with_opcode o ip = record ip { info = row_of o }
