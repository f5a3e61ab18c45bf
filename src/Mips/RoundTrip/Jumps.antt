-- ===== src/Mips/RoundTrip/Jumps.antt =====
-- The round trip of shifts, `break` and jumps.
use cse.Base.{ℕ, ◌/◌, ◌%◌, ◌^◌, ◌<◌, ◌≡◌, refl, true, false, some, arith}
use cse.Mips.Isa.{Opcode, InstrType, Instruction}
use cse.Mips.Decode.{decode_opcode}
use cse.Mips.RoundTrip.Steps.{special_of, decode_opcode_special}
use cse.Mips.RoundTrip.Recover.{RoundTrips}
use cse.Mips.RoundTrip.Fields.{word3, round_trip_by_fields}
use cse.Mips.RoundTrip.Extra.{
  encode_extra_shift, encode_extra_break, encode_extra_jump, decode_extra_shift, decode_extra_break,
  decode_extra_jump,
}
use cse.Mips.Isa.{Source, opcode_eq}
use cse.Base.{List}
use cse.Mips.RoundTrip.Fits.{TypedFits}
use cse.Mips.RoundTrip.Immediate.{entry, with_info, Known}

module _ (o : Opcode) (f : List ℕ) (b : ℕ) (ip : Instruction) (addr : ℕ) where
  -- A shift by a constant.
  pub shift_rd_rt :
      let info = entry o InstrType.rtyp Source.rd Source.rt Source.extra f in
      Known o b info
      → opcode_eq o Opcode.op_break ≡ false
      → special_of b ≡ some o
      → b < 64
      → ip.args.at0 < 32
      → ip.args.at1 < 32
      → ip.args.at2 < 32
      → RoundTrips (with_info info ip) addr
  shift_rd_rt known nb op lb h0 h1 h2 =
      let info = entry o InstrType.rtyp Source.rd Source.rt Source.extra f in
      let jp = with_info info ip in
      let a = ip.args.at2 in
      let w = word3 jp addr a 6 5 o b in
      let fits : w < 2 ^ 32 = omega arith in
      round_trip_by_fields jp addr a 6 5 o b known
        (
          omega arith,
          omega arith,
          (encode_extra_shift jp addr a nb refl h2, omega arith, omega arith),
        )
        fits (decode_opcode_special w fits b o (omega arith) (omega arith) op)
        (omega arith, omega arith, decode_extra_shift o info addr w a fits nb refl (omega arith))

  -- `break`, whose code is in bits 25:6.
  pub break_code :
      let info = entry o InstrType.rtyp Source.extra Source.nsrc Source.nsrc f in
      Known o b info
      → opcode_eq o Opcode.op_break ≡ true
      → special_of b ≡ some o
      → b < 64
      → ip.args.at0 < 2 ^ 19
      → ip.args.at1 ≡ 0
      → ip.args.at2 ≡ 0
      → RoundTrips (with_info info ip) addr
  break_code known nb op lb h0 h1 h2 =
      let info = entry o InstrType.rtyp Source.extra Source.nsrc Source.nsrc f in
      let jp = with_info info ip in
      let a = ip.args.at0 in
      let w = word3 jp addr a 6 20 o b in
      let fits : w < 2 ^ 32 = omega arith in
      round_trip_by_fields jp addr a 6 20 o b known
        ((encode_extra_break jp addr a nb h0, omega arith, omega arith), omega arith, omega arith)
        fits (decode_opcode_special w fits b o (omega arith) (omega arith) op)
        (decode_extra_break o info addr w a fits nb (omega arith), omega arith, omega arith)

  -- A jump within the segment of 2 ^ 28 bytes.
  pub jump_target :
      let info = entry o InstrType.jtyp Source.extra Source.nsrc Source.nsrc f in
      let a = ip.args.at0 in
      Known o b info
      → opcode_eq o Opcode.op_break ≡ false
      → ((w : ℕ) → w < 2 ^ 32 → w / 2 ^ 26 ≡ b / 2 ^ 26 → decode_opcode w ≡ some o)
      → b < 2 ^ 32
      → b % 2 ^ 26 ≡ 0
      → addr < 2 ^ 32
      → TypedFits InstrType.jtyp ip.extra addr a
      → ip.args.at1 ≡ 0
      → ip.args.at2 ≡ 0
      → RoundTrips (with_info info ip) addr
  jump_target known nb op lb c la h h1 h2 =
      let info = entry o InstrType.jtyp Source.extra Source.nsrc Source.nsrc f in
      let jp = with_info info ip in
      let a = ip.args.at0 in
      let t = a / 4 % 2 ^ 26 in
      let w = word3 jp addr t 0 26 o b in
      let fits : w < 2 ^ 32 = omega arith in
      let same : ip.extra ≡ a = h.0 in
      round_trip_by_fields jp addr t 0 26 o b known
        (
          (
            encode_extra_jump jp addr a nb refl h.1 h.2 la (omega arith) (omega arith),
            omega arith,
            omega arith,
          ),
          omega arith,
          omega arith,
        )
        fits (op w fits (omega arith))
        (
          decode_extra_jump o info addr w a fits nb refl h.1 h.2 la (omega arith) (omega arith),
          omega arith,
          omega arith,
        )
