-- ===== src/Mips/RoundTrip/Steps.antt =====
-- One argument at a time: what `encode_arg` adds to the value, and what `decode` reads back.
use cse.Base.{
  ℕ, ◌+◌, ◌*◌, ◌/◌, ◌%◌, ◌^◌, ◌<◌, ◌≡◌, ◌∙◌, ap, true, Option, some, none, bit_or, arith, get_or,
  ◌==◌, if◌then◌else◌,
}
use cse.Base.Bits.{bit_and_low, bit_or_field, bit_or-zero}
use cse.Mips.Isa.{Opcode, opcode_eq, Source, Instruction, special_table, opcode_table}
use cse.Mips.Encode.{encode_bits, encode_arg, encode_extra}
use cse.Mips.Decode.{decode_opcode, decode_by, decode_special, decode_bcond}
use cse.Mips.Fields.{encode_register_rs, encode_register_rt, encode_register_rd, sar_field_rt}

module _ (ip : Instruction) (addr v a : ℕ) where
  encode_arg-some :
      (src : Source) (bits : ℕ)
      → encode_bits ip addr src a ≡ some bits
      → encode_arg ip addr src a (true, v) ≡ (true, bit_or v bits)
  unfolding encode_arg
  encode_arg-some src bits e = rw (e, encode_arg)

  -- The bits of an argument that stands in a free field of w bits at bit k are added.
  encode_arg-add :
      (src : Source) (k w e : ℕ)
      → encode_bits ip addr src a ≡ some (e * 2 ^ k)
      → e < 2 ^ w
      → v / 2 ^ k % 2 ^ w ≡ 0
      → encode_arg ip addr src a (true, v) ≡ (true, v + e * 2 ^ k)
  encode_arg-add src k w e h fits free =
      encode_arg-some src (e * 2 ^ k) h ∙ ap (λ (t : ℕ). (true, t)) (bit_or_field k w v e fits free)

  pub encode_arg_rs :
      a < 32
      → v / 2 ^ 21 % 32 ≡ 0
      → encode_arg ip addr Source.rs a (true, v) ≡ (true, v + a * 2 ^ 21)
  unfolding encode_bits
  encode_arg_rs h free = encode_arg-add Source.rs 21 5 a (encode_register_rs a h) h free

  pub encode_arg_rt :
      a < 32
      → v / 2 ^ 16 % 32 ≡ 0
      → encode_arg ip addr Source.rt a (true, v) ≡ (true, v + a * 2 ^ 16)
  unfolding encode_bits
  encode_arg_rt h free = encode_arg-add Source.rt 16 5 a (encode_register_rt a h) h free

  pub encode_arg_rd :
      a < 32
      → v / 2 ^ 11 % 32 ≡ 0
      → encode_arg ip addr Source.rd a (true, v) ≡ (true, v + a * 2 ^ 11)
  unfolding encode_bits
  encode_arg_rd h free = encode_arg-add Source.rd 11 5 a (encode_register_rd a h) h free

  pub encode_arg_nsrc : a ≡ 0 → encode_arg ip addr Source.nsrc a (true, v) ≡ (true, v)
  unfolding encode_bits encode_arg
  encode_arg_nsrc h = ground (arith, bit_or-zero v)

  -- An argument of w bits at bit k with source EXTRA.
  pub encode_arg_extra :
      (k w e : ℕ)
      → encode_extra ip addr a ≡ some (e * 2 ^ k)
      → e < 2 ^ w
      → v / 2 ^ k % 2 ^ w ≡ 0
      → encode_arg ip addr Source.extra a (true, v) ≡ (true, v + e * 2 ^ k)
  unfolding encode_bits
  encode_arg_extra k w e h = encode_arg-add Source.extra k w e h

-- The fields that `decode_opcode` reads: bits 31:26, and 20:16 or 5:0.
unfoldable pub bcond_of : ℕ → Option Opcode
bcond_of op =
    if op == 0
    then some Opcode.op_bltz
    else if op == 1
    then some Opcode.op_bgez
    else if op == 16
    then some Opcode.op_bltzal
    else if op == 17
    then some Opcode.op_bgezal
    else none

unfoldable pub special_of : ℕ → Option Opcode
special_of fn =
    let o = get_or special_table fn Opcode.illegl in
    if opcode_eq o Opcode.illegl then none else some o

module _ (v : ℕ) (h : v < 2 ^ 32) where
  pub decode_opcode_special :
      (fn : ℕ) (o : Opcode)
      → v / 2 ^ 26 ≡ 0
      → v % 64 ≡ fn
      → special_of fn ≡ some o
      → decode_opcode v ≡ some o
  unfolding decode_opcode decode_by decode_special special_of
  decode_opcode_special fn o p q e = rw (p, bit_and_low 6 v, q) e

  pub decode_opcode_bcond :
      (fn : ℕ) (o : Opcode)
      → v / 2 ^ 26 ≡ 1
      → v / 2 ^ 16 % 32 ≡ fn
      → bcond_of fn ≡ some o
      → decode_opcode v ≡ some o
  unfolding decode_opcode decode_by decode_bcond bcond_of
  decode_opcode_bcond fn o p q e = rw (p, sar_field_rt v h, q) e

  pub decode_opcode_plain :
      (i : ℕ) (o : Opcode)
      → v / 2 ^ 26 ≡ i
      → decode_by (get_or opcode_table i Opcode.illegl) v ≡ some o
      → decode_opcode v ≡ some o
  unfolding decode_opcode
  decode_opcode_plain i o p e = rw p e
