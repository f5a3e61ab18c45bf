-- ===== src/Mips/RoundTrip/Fields.antt =====
-- The round trip of an instruction from conditions on the fields of its word: where each argument
-- goes, that its place is free, and what is read there.
use cse.Base.{ℕ, ◌+◌, ◌*◌, ◌/◌, ◌%◌, ◌^◌, ◌<◌, ◌≡◌, ap, ◌∙◌, true, false, some, arith}
use cse.Mips.Isa.{Opcode, Source, InstrInfo, Instruction, instr_table}
use cse.Mips.Encode.{encode_opcode, encode_extra, encode_arg, is_ntyp}
use cse.Mips.Decode.{decode_opcode, decode_extra, decode_arg, find_info}
use cse.Mips.RoundTrip.Steps.{
  encode_arg_rs, encode_arg_rt, encode_arg_rd, encode_arg_nsrc, encode_arg_extra,
}
use cse.Mips.RoundTrip.Recover.{
  RoundTrips, recover, encode_word-steps, decode_arg_rs, decode_arg_rt, decode_arg_rd,
  decode_arg_nsrc, decode_arg_extra,
}

-- What an argument adds to the word. `field` is what the argument with source EXTRA adds.
abbrev pub place : ℕ → Source → ℕ → ℕ
place field Source.nsrc a = 0
place field Source.rs a = a * 2 ^ 21
place field Source.rt a = a * 2 ^ 16
place field Source.rd a = a * 2 ^ 11
place field Source.extra a = field

-- `ip->extra` after a round of the loop of `decode`.
abbrev after : Source → ℕ → ℕ → ℕ
after Source.extra a e = a
after s a e = e

-- An instruction with the opcode `o`; its argument with source EXTRA is `imm`, in n bits at bit k.
module _ (ip : Instruction) (addr imm k n : ℕ) (o : Opcode) where
  open ip use {info, args, info.{srcs}}

  -- The argument fits, and its place in `v` is free.
  abbrev pub Goes : ℕ → Source → ℕ → Type 0
  Goes v Source.nsrc a = a ≡ 0
  Goes v Source.rs a = (a < 32) × (v / 2 ^ 21 % 32 ≡ 0)
  Goes v Source.rt a = (a < 32) × (v / 2 ^ 16 % 32 ≡ 0)
  Goes v Source.rd a = (a < 32) × (v / 2 ^ 11 % 32 ≡ 0)
  Goes v Source.extra a =
      (encode_extra ip addr a ≡ some (imm * 2 ^ k)) × (imm < 2 ^ n) × (v / 2 ^ k % 2 ^ n ≡ 0)

  -- The argument is what `decode` reads from the word.
  abbrev pub Seen : ℕ → Source → ℕ → Type 0
  Seen w Source.nsrc a = a ≡ 0
  Seen w Source.rs a = w / 2 ^ 21 % 32 ≡ a
  Seen w Source.rt a = w / 2 ^ 16 % 32 ≡ a
  Seen w Source.rd a = w / 2 ^ 11 % 32 ≡ a
  Seen w Source.extra a = decode_extra o info addr w ≡ some a

  encode_arg-Goes :
      (v : ℕ) (s : Source) (a : ℕ)
      → Goes v s a
      → encode_arg ip addr s a (true, v) ≡ (true, v + place (imm * 2 ^ k) s a)
  encode_arg-Goes v Source.nsrc a h =
      encode_arg_nsrc ip addr v a h ∙ ap (λ (t : ℕ). (true, t)) (omega arith)
  encode_arg-Goes v Source.rs a h = encode_arg_rs ip addr v a h.0 h.1
  encode_arg-Goes v Source.rt a h = encode_arg_rt ip addr v a h.0 h.1
  encode_arg-Goes v Source.rd a h = encode_arg_rd ip addr v a h.0 h.1
  encode_arg-Goes v Source.extra a h = encode_arg_extra ip addr v a k n imm h.0 h.1 h.2

  decode_arg-Seen :
      (w : ℕ) (s : Source) (a e : ℕ)
      → w < 2 ^ 32
      → Seen w s a
      → decode_arg o info addr w s e ≡ some (after s a e, a)
  decode_arg-Seen w Source.nsrc a e fits h = decode_arg_nsrc o info addr w a e fits h
  decode_arg-Seen w Source.rs a e fits h = decode_arg_rs o info addr w a e fits h
  decode_arg-Seen w Source.rt a e fits h = decode_arg_rt o info addr w a e fits h
  decode_arg-Seen w Source.rd a e fits h = decode_arg_rd o info addr w a e fits h
  decode_arg-Seen w Source.extra a e fits h = decode_arg_extra o info addr w a e fits h

  -- The value after each round, from the bits `b` of the opcode.
  abbrev pub word1 : ℕ → ℕ
  word1 b = b + place (imm * 2 ^ k) srcs.at0 args.at0

  abbrev pub word2 : ℕ → ℕ
  word2 b = word1 b + place (imm * 2 ^ k) srcs.at1 args.at1

  abbrev pub word3 : ℕ → ℕ
  word3 b = word2 b + place (imm * 2 ^ k) srcs.at2 args.at2

  pub round_trip_by_fields :
      (b : ℕ)
      → (is_ntyp info.type ≡ false)
        × (encode_opcode info ≡ some b)
        × ((old : InstrInfo) → find_info o instr_table old ≡ info)
      → (Goes b srcs.at0 args.at0)
        × (Goes (word1 b) srcs.at1 args.at1)
        × (Goes (word2 b) srcs.at2 args.at2)
      → word3 b < 2 ^ 32
      → decode_opcode (word3 b) ≡ some o
      → (Seen (word3 b) srcs.at0 args.at0)
        × (Seen (word3 b) srcs.at1 args.at1)
        × (Seen (word3 b) srcs.at2 args.at2)
      → RoundTrips ip addr
  round_trip_by_fields b known goes fits op seen =
      let e1 = λ (x : ℕ). after srcs.at0 args.at0 x in
      let e2 = λ (x : ℕ). after srcs.at1 args.at1 (e1 x) in
      let e3 = λ (x : ℕ). after srcs.at2 args.at2 (e2 x) in
      recover ip addr (word3 b) e1 e2 e3 o known.0 fits
        (encode_word-steps ip addr b (word1 b) (word2 b) (word3 b) known.1
          (encode_arg-Goes b srcs.at0 args.at0 goes.0)
          (encode_arg-Goes (word1 b) srcs.at1 args.at1 goes.1)
          (encode_arg-Goes (word2 b) srcs.at2 args.at2 goes.2))
        op known.2 (λ x. decode_arg-Seen (word3 b) srcs.at0 args.at0 x fits seen.0)
        (λ x. decode_arg-Seen (word3 b) srcs.at1 args.at1 (e1 x) fits seen.1)
        (λ x. decode_arg-Seen (word3 b) srcs.at2 args.at2 (e2 x) fits seen.2)
