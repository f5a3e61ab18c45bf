-- ===== src/Mips/RoundTrip/Shapes.antt =====
-- The round trip of each arrangement of sources with a 16-bit immediate or a branch offset.
use cse.Base.{ℕ, ◌/◌, ◌%◌, ◌^◌, ◌<◌, ◌≡◌, refl, true, false, some, arith}
use cse.Mips.Isa.{Opcode, InstrType, Instruction}
use cse.Mips.Encode.{is_branch}
use cse.Mips.Decode.{decode_opcode}
use cse.Mips.RoundTrip.Recover.{RoundTrips}
use cse.Mips.RoundTrip.Fields.{word3, round_trip_by_fields}
use cse.Mips.Isa.{Source, opcode_eq}
use cse.Base.{List}
use cse.Mips.RoundTrip.Extra.{IsShort}
use cse.Mips.RoundTrip.Fits.{BranchFits}
use cse.Mips.RoundTrip.Immediate.{
  entry, with_info, Known, encode_plain_immediate, decode_plain_immediate, encode_branch,
  decode_branch,
}

module _ (o : Opcode) (f : List ℕ) (b : ℕ) (ip : Instruction) (addr : ℕ) (la : addr < 2 ^ 32) where
  -- Two registers and an immediate, as in `addi`.
  pub imm_rt_rs :
      let info = entry o InstrType.ityp Source.rt Source.rs Source.extra f in
      Known o b info
      → opcode_eq o Opcode.op_break ≡ false
      → is_branch info ≡ false
      → ((w : ℕ) → w < 2 ^ 32 → w / 2 ^ 26 ≡ b / 2 ^ 26 → decode_opcode w ≡ some o)
      → b < 2 ^ 32
      → b % 2 ^ 26 ≡ 0
      → ip.args.at0 < 32
      → ip.args.at1 < 32
      → (ip.extra ≡ ip.args.at2) × IsShort ip.args.at2
      → RoundTrips (with_info info ip) addr
  imm_rt_rs known nb br op lb c h0 h1 h2 =
      let info = entry o InstrType.ityp Source.rt Source.rs Source.extra f in
      let jp = with_info info ip in
      let e = ip.args.at2 % 2 ^ 16 in
      let w = word3 jp addr e 0 16 o b in
      let fits : w < 2 ^ 32 = omega arith in
      round_trip_by_fields jp addr e 0 16 o b known
        (
          omega arith,
          omega arith,
          (
            encode_plain_immediate o ip addr ip.args.at2 info refl refl nb br h2.0,
            omega arith,
            omega arith,
          ),
        )
        fits (op w fits (omega arith))
        (
          omega arith,
          omega arith,
          decode_plain_immediate o ip addr ip.args.at2 info refl refl nb w fits br h2.1
              (omega arith),
        )

  -- A load or a store.
  pub imm_rt_at_rs :
      let info = entry o InstrType.ityp Source.rt Source.extra Source.rs f in
      Known o b info
      → opcode_eq o Opcode.op_break ≡ false
      → is_branch info ≡ false
      → ((w : ℕ) → w < 2 ^ 32 → w / 2 ^ 26 ≡ b / 2 ^ 26 → decode_opcode w ≡ some o)
      → b < 2 ^ 32
      → b % 2 ^ 26 ≡ 0
      → ip.args.at0 < 32
      → (ip.extra ≡ ip.args.at1) × IsShort ip.args.at1
      → ip.args.at2 < 32
      → RoundTrips (with_info info ip) addr
  imm_rt_at_rs known nb br op lb c h0 h1 h2 =
      let info = entry o InstrType.ityp Source.rt Source.extra Source.rs f in
      let jp = with_info info ip in
      let e = ip.args.at1 % 2 ^ 16 in
      let w = word3 jp addr e 0 16 o b in
      let fits : w < 2 ^ 32 = omega arith in
      round_trip_by_fields jp addr e 0 16 o b known
        (
          omega arith,
          (
            encode_plain_immediate o ip addr ip.args.at1 info refl refl nb br h1.0,
            omega arith,
            omega arith,
          ),
          omega arith,
        )
        fits (op w fits (omega arith))
        (
          omega arith,
          decode_plain_immediate o ip addr ip.args.at1 info refl refl nb w fits br h1.1
              (omega arith),
          omega arith,
        )

  -- `lui`.
  pub imm_rt :
      let info = entry o InstrType.ityp Source.rt Source.extra Source.nsrc f in
      Known o b info
      → opcode_eq o Opcode.op_break ≡ false
      → is_branch info ≡ false
      → ((w : ℕ) → w < 2 ^ 32 → w / 2 ^ 26 ≡ b / 2 ^ 26 → decode_opcode w ≡ some o)
      → b < 2 ^ 32
      → b % 2 ^ 26 ≡ 0
      → ip.args.at0 < 32
      → (ip.extra ≡ ip.args.at1) × IsShort ip.args.at1
      → ip.args.at2 ≡ 0
      → RoundTrips (with_info info ip) addr
  imm_rt known nb br op lb c h0 h1 h2 =
      let info = entry o InstrType.ityp Source.rt Source.extra Source.nsrc f in
      let jp = with_info info ip in
      let e = ip.args.at1 % 2 ^ 16 in
      let w = word3 jp addr e 0 16 o b in
      let fits : w < 2 ^ 32 = omega arith in
      round_trip_by_fields jp addr e 0 16 o b known
        (
          omega arith,
          (
            encode_plain_immediate o ip addr ip.args.at1 info refl refl nb br h1.0,
            omega arith,
            omega arith,
          ),
          omega arith,
        )
        fits (op w fits (omega arith))
        (
          omega arith,
          decode_plain_immediate o ip addr ip.args.at1 info refl refl nb w fits br h1.1
              (omega arith),
          omega arith,
        )

  -- A branch that compares two registers.
  pub branch_rs_rt :
      let info = entry o InstrType.ityp Source.rs Source.rt Source.extra f in
      Known o b info
      → opcode_eq o Opcode.op_break ≡ false
      → is_branch info ≡ true
      → ((w : ℕ) → w < 2 ^ 32 → w / 2 ^ 26 ≡ b / 2 ^ 26 → decode_opcode w ≡ some o)
      → b < 2 ^ 32
      → b % 2 ^ 26 ≡ 0
      → ip.args.at0 < 32
      → ip.args.at1 < 32
      → BranchFits ip.extra addr ip.args.at2
      → RoundTrips (with_info info ip) addr
  branch_rs_rt known nb br op lb c h0 h1 h2 =
      let info = entry o InstrType.ityp Source.rs Source.rt Source.extra f in
      let jp = with_info info ip in
      let e = ip.extra % 2 ^ 16 in
      let w = word3 jp addr e 0 16 o b in
      let fits : w < 2 ^ 32 = omega arith in
      round_trip_by_fields jp addr e 0 16 o b known
        (
          omega arith,
          omega arith,
          (
            encode_branch o ip addr ip.args.at2 info refl refl nb br la h2,
            omega arith,
            omega arith,
          ),
        )
        fits (op w fits (omega arith))
        (
          omega arith,
          omega arith,
          decode_branch o ip addr ip.args.at2 info refl refl nb w fits br h2 (omega arith),
        )

  -- A branch that compares a register with 0, with an opcode of its own.
  pub branch_rs :
      let info = entry o InstrType.ityp Source.rs Source.extra Source.nsrc f in
      Known o b info
      → opcode_eq o Opcode.op_break ≡ false
      → is_branch info ≡ true
      → ((w : ℕ) → w < 2 ^ 32 → w / 2 ^ 26 ≡ b / 2 ^ 26 → decode_opcode w ≡ some o)
      → b < 2 ^ 32
      → b % 2 ^ 26 ≡ 0
      → ip.args.at0 < 32
      → BranchFits ip.extra addr ip.args.at1
      → ip.args.at2 ≡ 0
      → RoundTrips (with_info info ip) addr
  branch_rs known nb br op lb c h0 h1 h2 =
      let info = entry o InstrType.ityp Source.rs Source.extra Source.nsrc f in
      let jp = with_info info ip in
      let e = ip.extra % 2 ^ 16 in
      let w = word3 jp addr e 0 16 o b in
      let fits : w < 2 ^ 32 = omega arith in
      round_trip_by_fields jp addr e 0 16 o b known
        (
          omega arith,
          (
            encode_branch o ip addr ip.args.at1 info refl refl nb br la h1,
            omega arith,
            omega arith,
          ),
          omega arith,
        )
        fits (op w fits (omega arith))
        (
          omega arith,
          decode_branch o ip addr ip.args.at1 info refl refl nb w fits br h1 (omega arith),
          omega arith,
        )

  -- A branch of the BCOND group.
  pub branch_bcond :
      let info = entry o InstrType.ityp Source.rs Source.extra Source.nsrc f in
      Known o b info
      → opcode_eq o Opcode.op_break ≡ false
      → is_branch info ≡ true
      → ((w : ℕ)
          → w < 2 ^ 32
          → w / 2 ^ 26 ≡ b / 2 ^ 26
          → w / 2 ^ 16 % 32 ≡ b / 2 ^ 16 % 32
          → decode_opcode w ≡ some o)
      → b < 2 ^ 32
      → b % 2 ^ 16 ≡ 0
      → b / 2 ^ 21 % 32 ≡ 0
      → ip.args.at0 < 32
      → BranchFits ip.extra addr ip.args.at1
      → ip.args.at2 ≡ 0
      → RoundTrips (with_info info ip) addr
  branch_bcond known nb br op lb c c2 h0 h1 h2 =
      let info = entry o InstrType.ityp Source.rs Source.extra Source.nsrc f in
      let jp = with_info info ip in
      let e = ip.extra % 2 ^ 16 in
      let w = word3 jp addr e 0 16 o b in
      let fits : w < 2 ^ 32 = omega arith in
      round_trip_by_fields jp addr e 0 16 o b known
        (
          omega arith,
          (
            encode_branch o ip addr ip.args.at1 info refl refl nb br la h1,
            omega arith,
            omega arith,
          ),
          omega arith,
        )
        fits (op w fits (omega arith) (omega arith))
        (
          omega arith,
          decode_branch o ip addr ip.args.at1 info refl refl nb w fits br h1 (omega arith),
          omega arith,
        )
