-- ===== src/Mips/Decode.antt =====
-- `decode` of `MIPS Convertor/src/hw1.c`.
use cse.Base.{
  ℕ, Bool, true, false, Option, none, some, List, [], ◌∷◌, bit_and, bit_or, ◌==◌, if◌then◌else◌,
  get_or,
}
use cse.Base.Word.{◌<<◌, ◌>>◌, sar, ◌+w◌}
use cse.Mips.Isa.{
  Opcode, opcode_eq, InstrType, Source, Three, InstrInfo, Instruction, opcode_table, special_table,
  instr_table,
}
use cse.Mips.Encode.{is_branch, index_of}

-- The opcode of a SPECIAL word, from bits 5:0.
unfoldable pub decode_special : ℕ → Option Opcode
decode_special v =
    let o = get_or special_table (bit_and v 0x3f) Opcode.illegl in
    if opcode_eq o Opcode.illegl then none else some o

-- The opcode of a BCOND word, from bits 20:16.
unfoldable pub decode_bcond : ℕ → Option Opcode
decode_bcond v =
    let op = bit_and (sar v 16) 0x1f in
    if op == 0
    then some Opcode.op_bltz
    else if op == 1
    then some Opcode.op_bgez
    else if op == 16
    then some Opcode.op_bltzal
    else if op == 17
    then some Opcode.op_bgezal
    else none

unfoldable pub decode_by : Opcode → ℕ → Option Opcode
decode_by Opcode.special v = decode_special v
decode_by Opcode.bcond v = decode_bcond v
decode_by Opcode.illegl v = none
decode_by o v = some o

-- The first part of `decode`: the opcode, or `none` where it returns 0.
unfoldable pub decode_opcode : ℕ → Option Opcode
decode_opcode v = decode_by (get_or opcode_table (v >> 26) Opcode.illegl) v

-- The loop that looks the opcode up; `ip->info` is left alone where it is not found.
unfoldable pub find_info : Opcode → List InstrInfo → InstrInfo → InstrInfo
find_info o [] old = old
find_info o (r ∷ rs) old = if opcode_eq o r.opcode then r else find_info o rs old

-- `extra` of type I: sign extended, and absolute for a branch.
unfoldable pub sign_extend : ℕ → ℕ
sign_extend v = if bit_and (sar v 15) 1 == 0 then bit_and v 0xffff else bit_or v 0xffff0000

unfoldable pub decode_immediate : InstrInfo → ℕ → ℕ → ℕ
decode_immediate info addr v =
    if is_branch info then (sign_extend v << 2) +w (addr +w 4) else sign_extend v

-- `ip->extra` by the type of the instruction; `none` where there is no place for it.
unfoldable pub decode_typed : InstrType → InstrInfo → ℕ → ℕ → Option ℕ
decode_typed InstrType.rtyp info addr v = some (bit_and (sar v 6) 0x1f)
decode_typed InstrType.ityp info addr v = some (decode_immediate info addr v)
decode_typed InstrType.jtyp info addr v =
    some ((bit_and v 0x3ffffff << 2) +w bit_and (addr +w 4) 0xf0000000)
decode_typed InstrType.ntyp info addr v = none

unfoldable pub decode_extra : Opcode → InstrInfo → ℕ → ℕ → Option ℕ
decode_extra o info addr v =
    if opcode_eq o Opcode.op_break
    then some (bit_and (sar v 6) 0xfffff)
    else decode_typed info.type info addr v

-- One round of the loop over the sources: the new `ip->extra` and the argument.
unfoldable pub decode_arg : Opcode → InstrInfo → ℕ → ℕ → Source → ℕ → Option (ℕ × ℕ)
decode_arg o info addr v Source.extra e = elim (decode_extra o info addr v) [
  | none ↦ none
  | some x ↦ some (x, x)
]
decode_arg o info addr v Source.rs e = some (e, bit_and (sar v 21) 0x1f)
decode_arg o info addr v Source.rt e = some (e, bit_and (sar v 16) 0x1f)
decode_arg o info addr v Source.rd e = some (e, bit_and (sar v 11) 0x1f)
decode_arg o info addr v Source.nsrc e = some (e, 0)

-- The rounds left, with the arguments so far; `args` keeps its old value in the rounds not reached.
unfoldable pub decode_at2 : Opcode → ℕ → Instruction → Bool × Instruction
decode_at2 o addr ip = elim (decode_arg o ip.info addr ip.value ip.info.srcs.at2 ip.extra) [
  | none ↦ (false, ip)
  | some (e, a) ↦ (true, record ip { extra = e; args = record (ip.args) { at2 = a } })
]

unfoldable pub decode_at1 : Opcode → ℕ → Instruction → Bool × Instruction
decode_at1 o addr ip = elim (decode_arg o ip.info addr ip.value ip.info.srcs.at1 ip.extra) [
  | none ↦ (false, ip)
  | some (e, a) ↦ decode_at2 o addr (record ip { extra = e; args = record (ip.args) { at1 = a } })
]

unfoldable pub decode_at0 : Opcode → ℕ → Instruction → Bool × Instruction
decode_at0 o addr ip = elim (decode_arg o ip.info addr ip.value ip.info.srcs.at0 ip.extra) [
  | none ↦ (false, ip)
  | some (e, a) ↦ decode_at1 o addr (record ip { extra = e; args = record (ip.args) { at0 = a } })
]

-- Bits 25:21, 20:16 and 15:11, which go to `ip->regs`.
unfoldable pub decode_regs : ℕ → Three ℕ
decode_regs v = record {
  at0 = sar (bit_and v 0x03e00000) 21;
  at1 = sar (bit_and v 0x001f0000) 16;
  at2 = sar (bit_and v 0x0000f800) 11;
}

-- `decode`: the returned int as a Bool, and the instruction with its other fields set.
unfoldable pub decode : Instruction → ℕ → Bool × Instruction
decode ip addr = elim (decode_opcode ip.value) [
  | none ↦ (false, ip)
  | some o ↦
      decode_at0 o addr
        (record ip { info = find_info o instr_table ip.info; regs = decode_regs ip.value })
]

-- Names every definition above: a test that evaluates `decode` unfolds this one.
unfoldable pub decode_open : Unit {0}
unfolding opcode_eq index_of is_branch decode_special decode_bcond decode_by decode_opcode find_info
    sign_extend decode_immediate decode_typed decode_extra decode_arg decode_at2 decode_at1
    decode_at0 decode_regs decode
decode_open = tt
