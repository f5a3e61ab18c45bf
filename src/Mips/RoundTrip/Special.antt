-- ===== src/Mips/RoundTrip/Special.antt =====
-- The round trip of the SPECIAL instructions, whose function code is in bits 5:0.
use cse.Base.{ℕ, ◌/◌, ◌%◌, ◌^◌, ◌<◌, ◌≡◌, false, some}
use cse.Mips.Isa.{Opcode, Instruction}
use cse.Mips.Encode.{is_ntyp}
use cse.Mips.RoundTrip.Steps.{special_of, decode_opcode_special}
use cse.Mips.RoundTrip.Recover.{RoundTrips}
use cse.Mips.RoundTrip.Fields.{Goes, Seen, word1, word2, word3, round_trip_by_fields}
use cse.Mips.RoundTrip.Codes.{row_of, code_of, row_known}
use cse.Mips.RoundTrip.Fits.{with_opcode}

-- The function code comes back with the arguments.
abbrev pub IsSpecialWord : ℕ → ℕ → Type 0
IsSpecialWord w fn = (w < 2 ^ 32) × (w / 2 ^ 26 ≡ 0) × (w % 64 ≡ fn)

module _ (o : Opcode) (ip : Instruction) (addr imm k n : ℕ)
    (typed : is_ntyp (row_of o).type ≡ false) (special : special_of (code_of o) ≡ some o) where
  pub special_row :
      let jp = with_opcode o ip in
      let fn = code_of o in
      let w = word3 jp addr imm k n o fn in
      Goes jp addr imm k n o fn jp.info.srcs.at0 jp.args.at0
        × Goes jp addr imm k n o (word1 jp addr imm k n o fn) jp.info.srcs.at1 jp.args.at1
        × Goes jp addr imm k n o (word2 jp addr imm k n o fn) jp.info.srcs.at2 jp.args.at2
      → IsSpecialWord w fn
      → Seen jp addr imm k n o w jp.info.srcs.at0 jp.args.at0
        × Seen jp addr imm k n o w jp.info.srcs.at1 jp.args.at1
        × Seen jp addr imm k n o w jp.info.srcs.at2 jp.args.at2
      → RoundTrips jp addr
  special_row goes at seen =
      let jp = with_opcode o ip in
      let fn = code_of o in
      let w = word3 jp addr imm k n o fn in
      round_trip_by_fields jp addr imm k n o fn (row_known o typed) goes at.0
        (decode_opcode_special w at.0 fn o at.1 at.2 special) seen
