-- ===== src/Mips/Encode.antt =====
-- `encode` of `MIPS Convertor/src/hw1.c` with its helpers. A word is its bit pattern below 2 ^ 32.
use cse.Base.{
  ℕ, suc, Bool, true, false, ◌||◌, Option, none, some, List, [], ◌∷◌, bit_and, bit_or, ◌==◌, ltb,
  if◌then◌else◌,
}
use cse.Base.Word.{◌<<◌, sar, is_neg, ◌+w◌, ◌-w◌}
use cse.Mips.Isa.{
  Opcode, opcode_eq, InstrType, Source, InstrInfo, Instruction, opcode_table, special_table,
}

-- The first index at which a table holds the opcode: the `for` loops over the tables.
unfoldable pub index_of : Opcode → List Opcode → Option ℕ
index_of o [] = none
index_of o (p ∷ ps) =
    if opcode_eq p o then some 0 else elim (index_of o ps) [ none ↦ none | some i ↦ some (suc i) ]

-- `hasSpecial`
unfoldable pub has_special : Bool
has_special = elim (index_of Opcode.special opcode_table) [ none ↦ false | some _ ↦ true ]

-- `isSpecial`: the updated value, or `none` for the result 0.
unfoldable pub is_special : InstrInfo → ℕ → Option ℕ
is_special info v = elim (index_of info.opcode special_table) [
  | none ↦ none
  | some i ↦ if has_special then some (bit_or v i) else none
]

-- `isNotSpecial`
unfoldable pub is_not_special : InstrInfo → Option ℕ
is_not_special info = elim (index_of info.opcode opcode_table) [
  | none ↦ none
  | some i ↦ some (i << 26)
]

-- `isBranch`
abbrev pub branch_opcodes : List Opcode
branch_opcodes =
    Opcode.op_beq ∷ Opcode.op_bgez ∷ Opcode.op_bgezal ∷ Opcode.op_bgtz ∷ Opcode.op_blez
    ∷ Opcode.op_bltz ∷ Opcode.op_bltzal ∷ Opcode.op_bne ∷ []

unfoldable pub is_branch : InstrInfo → Bool
is_branch info = elim (index_of info.opcode branch_opcodes) [ none ↦ false | some _ ↦ true ]

-- `findBcond`
unfoldable pub find_bcond : ℕ → Option ℕ
find_bcond v = elim (index_of Opcode.bcond opcode_table) [
  | none ↦ none
  | some i ↦ some (bit_or v (i << 26))
]

-- A conditional branch of the BCOND group: the bits of its RT field.
unfoldable pub bcond_bits : Opcode → Option ℕ
bcond_bits Opcode.op_bgez = some 0x10000
bcond_bits Opcode.op_bltzal = some 0x100000
bcond_bits Opcode.op_bgezal = some 0x110000
bcond_bits Opcode.op_bltz = some 0
bcond_bits o = none

-- The chain of `if` in `encode` that puts the opcode into the value, which starts at 0.
unfoldable pub encode_plain : InstrInfo → Option ℕ
encode_plain info = elim (is_special info 0) [ some v ↦ some v | none ↦ is_not_special info ]

unfoldable pub encode_opcode : InstrInfo → Option ℕ
encode_opcode info = elim (bcond_bits info.opcode) [
  | none ↦ encode_plain info
  | some bits ↦ elim (find_bcond 0) [ none ↦ encode_plain info | some v ↦ some (bit_or v bits) ]
]

-- `extra` of an instruction of type I: the offset of a branch is taken from the next address.
unfoldable pub immediate : InstrInfo → ℕ → ℕ → ℕ
immediate info addr arg = if is_branch info then sar (arg -w (addr +w 4)) 2 else arg

unfoldable pub encode_immediate : Instruction → ℕ → ℕ → Option ℕ
encode_immediate ip addr arg =
    let e = immediate ip.info addr arg in if e == ip.extra then some (bit_and e 0xffff) else none

unfoldable pub encode_jump : Instruction → ℕ → ℕ → Option ℕ
encode_jump ip addr arg =
    if bit_and ip.extra 0xf0000000 == bit_and addr 0xf0000000
    then some (bit_and (sar (arg -w bit_and (addr -w 4) 0xf0000000) 2) 0x3ffffff)
    else none

-- What the argument with source EXTRA adds to the value.
unfoldable pub encode_typed : InstrType → Instruction → ℕ → ℕ → Option ℕ
encode_typed InstrType.rtyp ip addr arg = some (bit_and arg 0x1f << 6)
encode_typed InstrType.ityp ip addr arg = encode_immediate ip addr arg
encode_typed InstrType.jtyp ip addr arg = encode_jump ip addr arg
encode_typed InstrType.ntyp ip addr arg = some arg

unfoldable pub encode_extra : Instruction → ℕ → ℕ → Option ℕ
encode_extra ip addr arg =
    if opcode_eq ip.info.opcode Opcode.op_break
    then some (sar (arg << 12) 6)
    else encode_typed ip.info.type ip addr arg

-- A register argument, shifted to bit `k` and masked.
unfoldable pub encode_register : ℕ → ℕ → ℕ → Option ℕ
encode_register k mask arg =
    if ltb 31 arg || is_neg arg then none else some (bit_and (arg << k) mask)

-- The bits of one argument; `none` where `encode` returns 0.
unfoldable pub encode_bits : Instruction → ℕ → Source → ℕ → Option ℕ
encode_bits ip addr Source.extra arg = encode_extra ip addr arg
encode_bits ip addr Source.rs arg = encode_register 21 0x3e00000 arg
encode_bits ip addr Source.rt arg = encode_register 16 0x1f0000 arg
encode_bits ip addr Source.rd arg = encode_register 11 0xf800 arg
encode_bits ip addr Source.nsrc arg = if arg == 0 then some 0 else none

-- One round of the loop over the arguments, with the result and value so far. After a `return 0`
-- nothing changes any more.
unfoldable pub encode_arg : Instruction → ℕ → Source → ℕ → Bool × ℕ → Bool × ℕ
encode_arg ip addr src arg (false, v) = (false, v)
encode_arg ip addr src arg (true, v) = elim (encode_bits ip addr src arg) [
  | none ↦ (false, v)
  | some bits ↦ (true, bit_or v bits)
]

unfoldable pub encode_args : Instruction → ℕ → Bool × ℕ → Bool × ℕ
encode_args ip addr s =
    let s0 = encode_arg ip addr srcs.at0 args.at0 s in
    let s1 = encode_arg ip addr srcs.at1 args.at1 s0 in encode_arg ip addr srcs.at2 args.at2 s1
  where
    open ip use {info.{srcs}, args}

-- `encode`: the returned int as a Bool, and the instruction with its new value.
unfoldable pub encode_word : Instruction → ℕ → Bool × ℕ
encode_word ip addr = elim (encode_opcode ip.info) [
  | none ↦ (false, 0)
  | some v ↦ encode_args ip addr (true, v)
]

unfoldable pub is_ntyp : InstrType → Bool
is_ntyp InstrType.ntyp = true
is_ntyp t = false

unfoldable pub encode : Instruction → ℕ → Bool × Instruction
encode ip addr =
    if is_ntyp ip.info.type
    then (false, ip)
    else (let (r, v) = encode_word ip addr in (r, record ip { value = v }))

-- Names every definition above: a test that evaluates `encode` unfolds this one.
unfoldable pub encode_open : Unit {0}
unfolding opcode_eq index_of has_special is_special is_not_special is_branch find_bcond bcond_bits
    encode_plain encode_opcode immediate encode_immediate encode_jump encode_typed encode_extra
    encode_register encode_bits encode_arg encode_args encode_word is_ntyp encode
encode_open = tt
