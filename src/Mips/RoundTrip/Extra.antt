-- ===== src/Mips/RoundTrip/Extra.antt =====
-- The argument with source EXTRA, by the type of the instruction: what `encode` puts into the word
-- is what `decode` reads from it.
use cse.Base.{ℕ, ◌-◌, ◌*◌, ◌/◌, ◌%◌, ◌^◌, ◌≤◌, ◌<◌, ◌≡◌, ◌⊎◌, true, false, some, arith}
use cse.Base.Word.{◌<<◌, sar, ◌+w◌, ◌-w◌}
use cse.Base.Bits.{bit_and_low, bit_and_field, bit_or_join, bit_or-zero, bit_or_ones}
use cse.Mips.Isa.{Opcode, opcode_eq, InstrType, InstrInfo, Instruction}
use cse.Mips.Encode.{
  encode_extra, encode_typed, encode_immediate, encode_jump, immediate, is_branch,
}
use cse.Mips.Decode.{decode_extra, decode_typed, decode_immediate, sign_extend}
use cse.Mips.Fields.{sar_field_sh, sar_field_break}

-- A 32-bit pattern that is the sign extension of its low 16 bits.
abbrev pub IsShort : ℕ → Type 0
IsShort a = (a < 2 ^ 15) ⊎ ((2 ^ 32 - 2 ^ 15 ≤ a) × (a < 2 ^ 32))

module _ (ip : Instruction) (addr a : ℕ) where
  pub encode_extra_shift :
      opcode_eq ip.info.opcode Opcode.op_break ≡ false
      → ip.info.type ≡ InstrType.rtyp
      → a < 32
      → encode_extra ip addr a ≡ some (a * 2 ^ 6)
  unfolding encode_extra encode_typed
  encode_extra_shift n t h = rw (n, t) (ground (arith, bit_and_low 5 a))

  pub encode_extra_break :
      opcode_eq ip.info.opcode Opcode.op_break ≡ true
      → a < 2 ^ 19
      → encode_extra ip addr a ≡ some (a * 2 ^ 6)
  unfolding encode_extra
  encode_extra_break n h = rw n (ground arith)

  pub encode_extra-immediate :
      (e : ℕ)
      → opcode_eq ip.info.opcode Opcode.op_break ≡ false
      → ip.info.type ≡ InstrType.ityp
      → immediate ip.info addr a ≡ e
      → ip.extra ≡ e
      → encode_extra ip addr a ≡ some (e % 2 ^ 16 * 2 ^ 0)
  unfolding encode_extra encode_typed encode_immediate
  encode_extra-immediate e n t i x = rw (n, t) (ground (arith, i, bit_and_low 16 e))

  pub encode_extra_jump :
      opcode_eq ip.info.opcode Opcode.op_break ≡ false
      → ip.info.type ≡ InstrType.jtyp
      → a % 4 ≡ 0
      → a < 2 ^ 32
      → addr < 2 ^ 32
      → ip.extra / 2 ^ 28 ≡ addr / 2 ^ 28
      → ip.extra < 2 ^ 32
      → encode_extra ip addr a ≡ some (a / 4 % 2 ^ 26 * 2 ^ 0)
  unfolding encode_extra encode_typed encode_jump
  encode_extra_jump n t al la ld seg le =
      rw (n, t)
        (ground (
          arith,
          bit_and_field 28 4 ip.extra,
          bit_and_field 28 4 addr,
          bit_and_field 28 4 (addr -w 4),
          bit_and_low 26 (sar (a -w ((addr -w 4) / 2 ^ 28 % 16 * 2 ^ 28)) 2),
        ))

-- The offset that `encode` takes of a branch target is the one that made it.
pub immediate_branch :
    (info : InstrInfo) (addr e : ℕ)
    → is_branch info ≡ true
    → IsShort e
    → addr < 2 ^ 32
    → immediate info addr ((e << 2) +w (addr +w 4)) ≡ e
unfolding immediate
immediate_branch info addr e b s h = rw b (ground arith)

pub immediate_plain :
    (info : InstrInfo) (addr a : ℕ) → is_branch info ≡ false → immediate info addr a ≡ a
unfolding immediate
immediate_plain info addr a b = rw b

-- What `decode` sign extends is the short number with the same low 16 bits.
pub sign_extend_short :
    (w a : ℕ) → w < 2 ^ 32 → IsShort a → w % 2 ^ 16 ≡ a % 2 ^ 16 → sign_extend w ≡ a
unfolding sign_extend
sign_extend_short w a h s e = ground (
  arith,
  bit_and_low 1 (sar w 15),
  bit_and_low 16 w,
  bit_or_join 16 (w / 2 ^ 16) 0xffff (w % 2 ^ 16) 0,
  bit_or-zero (w % 2 ^ 16),
  bit_or_ones 16 (w / 2 ^ 16),
)

module _ (o : Opcode) (info : InstrInfo) (addr w a : ℕ) (fits : w < 2 ^ 32) where
  pub decode_extra_shift :
      opcode_eq o Opcode.op_break ≡ false
      → info.type ≡ InstrType.rtyp
      → w / 2 ^ 6 % 32 ≡ a
      → decode_extra o info addr w ≡ some a
  unfolding decode_extra decode_typed
  decode_extra_shift n t e = rw (n, t, sar_field_sh w fits, e)

  pub decode_extra_break :
      opcode_eq o Opcode.op_break ≡ true
      → w / 2 ^ 6 % 2 ^ 20 ≡ a
      → decode_extra o info addr w ≡ some a
  unfolding decode_extra
  decode_extra_break n e = rw (n, sar_field_break w fits, e)

  pub decode_extra_immediate :
      opcode_eq o Opcode.op_break ≡ false
      → info.type ≡ InstrType.ityp
      → is_branch info ≡ false
      → sign_extend w ≡ a
      → decode_extra o info addr w ≡ some a
  unfolding decode_extra decode_typed decode_immediate
  decode_extra_immediate n t b e = simp (n, t, b, e)

  pub decode_extra_branch :
      (e : ℕ)
      → opcode_eq o Opcode.op_break ≡ false
      → info.type ≡ InstrType.ityp
      → is_branch info ≡ true
      → sign_extend w ≡ e
      → a ≡ (e << 2) +w (addr +w 4)
      → decode_extra o info addr w ≡ some a
  unfolding decode_extra decode_typed decode_immediate
  decode_extra_branch e n t b s p = simp (n, t, b, s, p)

  pub decode_extra_jump :
      opcode_eq o Opcode.op_break ≡ false
      → info.type ≡ InstrType.jtyp
      → a % 4 ≡ 0
      → a < 2 ^ 32
      → addr < 2 ^ 32
      → (addr +w 4) / 2 ^ 28 ≡ a / 2 ^ 28
      → w % 2 ^ 26 ≡ a / 4 % 2 ^ 26
      → decode_extra o info addr w ≡ some a
  unfolding decode_extra decode_typed
  decode_extra_jump n t al la ld seg e =
      rw (n, t) (ground (arith, bit_and_low 26 w, bit_and_field 28 4 (addr +w 4)))
