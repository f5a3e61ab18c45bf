-- ===== src/Mips/RoundTrip/Immediate.antt =====
-- The round trip of the instructions with a 16-bit immediate or a branch offset.
use cse.Base.{ℕ, ◌*◌, ◌%◌, ◌^◌, ◌<◌, ◌≡◌, refl, ◌∙◌, ap, true, false, some}
use cse.Mips.Isa.{Opcode, InstrType, Instruction, instr_table}
use cse.Mips.Encode.{encode_opcode, encode_extra, is_ntyp, is_branch, immediate}
use cse.Mips.Decode.{decode_extra, find_info}
use cse.Mips.RoundTrip.Extra.{
  encode_extra-immediate, immediate_branch, immediate_plain, sign_extend_short,
  decode_extra_immediate, decode_extra_branch,
}
use cse.Mips.Isa.{Source, InstrInfo, opcode_eq}
use cse.Base.{List}
use cse.Mips.RoundTrip.Extra.{IsShort}
use cse.Mips.RoundTrip.Fits.{BranchFits}

-- An entry of the table.
abbrev pub entry : Opcode → InstrType → Source → Source → Source → List ℕ → InstrInfo
entry o t p q r f = record {
  opcode = o;
  type = t;
  srcs = record { at0 = p; at1 = q; at2 = r };
  format = f;
}

abbrev pub with_info : InstrInfo → Instruction → Instruction
with_info info ip = record ip { info = info }

-- What is known of an entry with the code `b`.
abbrev pub Known : Opcode → ℕ → InstrInfo → Type 0
Known o b info =
    (is_ntyp info.type ≡ false)
    × (encode_opcode info ≡ some b)
    × ((old : InstrInfo) → find_info o instr_table old ≡ info)

-- An entry of type I: the immediate or offset `e` goes to bits 15:0 and comes back.
module _ (o : Opcode) (ip : Instruction) (addr a : ℕ) (info : InstrInfo) (opcode : info.opcode ≡ o)
    (type : info.type ≡ InstrType.ityp) (not_break : opcode_eq o Opcode.op_break ≡ false) where
  pub encode_plain_immediate :
      is_branch info ≡ false
      → ip.extra ≡ a
      → encode_extra (with_info info ip) addr a ≡ some (a % 2 ^ 16 * 2 ^ 0)
  encode_plain_immediate b x =
      encode_extra-immediate (with_info info ip) addr a a (rw opcode not_break) type
        (immediate_plain info addr a b) x

  pub decode_plain_immediate :
      (w : ℕ)
      → w < 2 ^ 32
      → is_branch info ≡ false
      → IsShort a
      → w % 2 ^ 16 ≡ a % 2 ^ 16
      → decode_extra o info addr w ≡ some a
  decode_plain_immediate w fits b s e =
      decode_extra_immediate o info addr w a fits not_break type b (sign_extend_short w a fits s e)

  pub encode_branch :
      is_branch info ≡ true
      → addr < 2 ^ 32
      → BranchFits ip.extra addr a
      → encode_extra (with_info info ip) addr a ≡ some (ip.extra % 2 ^ 16 * 2 ^ 0)
  encode_branch b la s =
      encode_extra-immediate (with_info info ip) addr a ip.extra (rw opcode not_break) type
        (ap (immediate info addr) s.1 ∙ immediate_branch info addr ip.extra b s.0 la) refl

  pub decode_branch :
      (w : ℕ)
      → w < 2 ^ 32
      → is_branch info ≡ true
      → BranchFits ip.extra addr a
      → w % 2 ^ 16 ≡ ip.extra % 2 ^ 16
      → decode_extra o info addr w ≡ some a
  decode_branch w fits b s e =
      decode_extra_branch o info addr w a fits ip.extra not_break type b
        (sign_extend_short w ip.extra fits s.0 e) s.1
