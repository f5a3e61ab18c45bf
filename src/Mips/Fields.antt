-- ===== src/Mips/Fields.antt =====
-- The fields of an instruction word as quotients and remainders: what each mask and shift of
-- `encode` and `decode` amounts to.
use cse.Base.{ℕ, ◌*◌, ◌/◌, ◌%◌, ◌^◌, ◌<◌, ◌≡◌, some, bit_and, arith}
use cse.Base.Word.{◌<<◌, sar}
use cse.Base.Bits.{bit_and_low, bit_and_field}
use cse.Mips.Encode.{encode_register}

pub encode_register_rs : (a : ℕ) → a < 32 → encode_register 21 0x3e00000 a ≡ some (a * 2 ^ 21)
unfolding encode_register
encode_register_rs a h = ground (arith, bit_and_field 21 5 (a << 21))

pub encode_register_rt : (a : ℕ) → a < 32 → encode_register 16 0x1f0000 a ≡ some (a * 2 ^ 16)
unfolding encode_register
encode_register_rt a h = ground (arith, bit_and_field 16 5 (a << 16))

pub encode_register_rd : (a : ℕ) → a < 32 → encode_register 11 0xf800 a ≡ some (a * 2 ^ 11)
unfolding encode_register
encode_register_rd a h = ground (arith, bit_and_field 11 5 (a << 11))

-- Arithmetic and logical shift agree below a mask that keeps none of the copied sign bits.
pub sar_field_rs : (v : ℕ) → v < 2 ^ 32 → bit_and (sar v 21) 0x1f ≡ v / 2 ^ 21 % 32
sar_field_rs v h = ground (arith, bit_and_low 5 (sar v 21))

pub sar_field_rt : (v : ℕ) → v < 2 ^ 32 → bit_and (sar v 16) 0x1f ≡ v / 2 ^ 16 % 32
sar_field_rt v h = ground (arith, bit_and_low 5 (sar v 16))

pub sar_field_rd : (v : ℕ) → v < 2 ^ 32 → bit_and (sar v 11) 0x1f ≡ v / 2 ^ 11 % 32
sar_field_rd v h = ground (arith, bit_and_low 5 (sar v 11))

pub sar_field_sh : (v : ℕ) → v < 2 ^ 32 → bit_and (sar v 6) 0x1f ≡ v / 2 ^ 6 % 32
sar_field_sh v h = ground (arith, bit_and_low 5 (sar v 6))

pub sar_field_break : (v : ℕ) → v < 2 ^ 32 → bit_and (sar v 6) 0xfffff ≡ v / 2 ^ 6 % 2 ^ 20
sar_field_break v h = ground (arith, bit_and_low 20 (sar v 6))
