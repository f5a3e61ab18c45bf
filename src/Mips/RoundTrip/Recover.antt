-- ===== src/Mips/RoundTrip/Recover.antt =====
-- The loops of `encode` and `decode` put together from what each round does.
use cse.Base.{ℕ, ◌/◌, ◌%◌, ◌^◌, ◌<◌, ◌≡◌, refl, ap, ◌∙◌, true, false, some}
use cse.Mips.Isa.{Opcode, Source, InstrInfo, Instruction, instr_table}
use cse.Mips.Encode.{encode, encode_word, encode_args, encode_arg, encode_opcode, is_ntyp}
use cse.Mips.Decode.{
  decode, decode_opcode, find_info, decode_regs, decode_arg, decode_at0, decode_at1, decode_at2,
  decode_extra,
}
use cse.Mips.Fields.{sar_field_rs, sar_field_rt, sar_field_rd}

-- `encode` succeeds, and `decode` of the word succeeds with the same information and arguments,
-- whatever instruction `jp` it is given the word in.
abbrev pub RoundTrips : Instruction → ℕ → Type 0
RoundTrips ip addr =
    ((encode ip addr).0 ≡ true)
    × ((encode ip addr).1.value < 2 ^ 32)
    × ((jp : Instruction)
        → let back = decode (record jp { value = (encode ip addr).1.value }) addr in
          (back.0 ≡ true) × (back.1.info ≡ ip.info) × (back.1.args ≡ ip.args))

module _ (o : Opcode) (addr : ℕ) (ip : Instruction) (e a : ℕ) where
  decode_at2-some :
      decode_arg o ip.info addr ip.value ip.info.srcs.at2 ip.extra ≡ some (e, a)
      → decode_at2 o addr ip ≡ (true, record ip { extra = e; args = record (ip.args) { at2 = a } })
  unfolding decode_at2
  decode_at2-some p = rw (p, decode_at2)

  decode_at1-some :
      decode_arg o ip.info addr ip.value ip.info.srcs.at1 ip.extra ≡ some (e, a)
      → decode_at1 o addr ip
        ≡ decode_at2 o addr (record ip { extra = e; args = record (ip.args) { at1 = a } })
  unfolding decode_at1
  decode_at1-some p = rw (p, decode_at1)

  decode_at0-some :
      decode_arg o ip.info addr ip.value ip.info.srcs.at0 ip.extra ≡ some (e, a)
      → decode_at0 o addr ip
        ≡ decode_at1 o addr (record ip { extra = e; args = record (ip.args) { at0 = a } })
  unfolding decode_at0
  decode_at0-some p = rw (p, decode_at0)

module _ (ip : Instruction) (addr : ℕ) where
  open ip use {info, args, info.{srcs}}

  pub encode_word-steps :
      (b v1 v2 w : ℕ)
      → encode_opcode info ≡ some b
      → encode_arg ip addr srcs.at0 args.at0 (true, b) ≡ (true, v1)
      → encode_arg ip addr srcs.at1 args.at1 (true, v1) ≡ (true, v2)
      → encode_arg ip addr srcs.at2 args.at2 (true, v2) ≡ (true, w)
      → encode_word ip addr ≡ (true, w)
  unfolding encode_word encode_args
  encode_word-steps b v1 v2 w p q r s = rw (p, encode_word) (rw (q, r, s))

  encode-steps :
      (w : ℕ)
      → is_ntyp info.type ≡ false
      → encode_word ip addr ≡ (true, w)
      → encode ip addr ≡ (true, record ip { value = w })
  unfolding encode
  encode-steps w p q = rw (p, q)

  decode-opcode :
      (w : ℕ) (o : Opcode) (jp : Instruction)
      → decode_opcode w ≡ some o
      → find_info o instr_table jp.info ≡ info
      → decode (record jp { value = w }) addr
        ≡ decode_at0 o addr (record jp { value = w; info = info; regs = decode_regs w })
  unfolding decode
  decode-opcode w o jp p q =
      rw (p, decode)
        (ap (λ j. decode_at0 o addr (record jp { value = w; info = j; regs = decode_regs w })) q)

  decode-steps :
      (w e1 e2 e3 : ℕ) (o : Opcode) (jp : Instruction)
      → decode_opcode w ≡ some o
      → find_info o instr_table jp.info ≡ info
      → decode_arg o info addr w srcs.at0 jp.extra ≡ some (e1, args.at0)
      → decode_arg o info addr w srcs.at1 e1 ≡ some (e2, args.at1)
      → decode_arg o info addr w srcs.at2 e2 ≡ some (e3, args.at2)
      → decode (record jp { value = w }) addr
        ≡ (true, record ip { value = w; regs = decode_regs w; extra = e3 })
  decode-steps w e1 e2 e3 o jp p q a b c =
      let start = record jp { value = w; info = info; regs = decode_regs w } in
      let one = record start { extra = e1; args = record (jp.args) { at0 = args.at0 } } in
      let two = record one { extra = e2; args = record (one.args) { at1 = args.at1 } } in
      decode-opcode w o jp p q
      ∙ decode_at0-some o addr start e1 args.at0 a
      ∙ decode_at1-some o addr one e2 args.at1 b
      ∙ decode_at2-some o addr two e3 args.at2 c

  -- The sequence of `extra` starts at that of the instruction which `decode` is given.
  pub recover :
      (w : ℕ) (e1 e2 e3 : ℕ → ℕ) (o : Opcode)
      → is_ntyp info.type ≡ false
      → w < 2 ^ 32
      → encode_word ip addr ≡ (true, w)
      → decode_opcode w ≡ some o
      → ((old : InstrInfo) → find_info o instr_table old ≡ info)
      → ((e : ℕ) → decode_arg o info addr w srcs.at0 e ≡ some (e1 e, args.at0))
      → ((e : ℕ) → decode_arg o info addr w srcs.at1 (e1 e) ≡ some (e2 e, args.at1))
      → ((e : ℕ) → decode_arg o info addr w srcs.at2 (e2 e) ≡ some (e3 e, args.at2))
      → RoundTrips ip addr
  recover w e1 e2 e3 o n fits p q f a b c = rw (encode-steps w n p) (
    refl,
    fits,
    λ jp.
        let x = jp.extra in
        rw (decode-steps w (e1 x) (e2 x) (e3 x) o jp q (f jp.info) (a x) (b x) (c x))
          (refl, refl, refl),
  )

module _ (o : Opcode) (info : InstrInfo) (addr w a e : ℕ) (h : w < 2 ^ 32) where
  pub decode_arg_rs : w / 2 ^ 21 % 32 ≡ a → decode_arg o info addr w Source.rs e ≡ some (e, a)
  unfolding decode_arg
  decode_arg_rs p = rw (sar_field_rs w h, p)

  pub decode_arg_rt : w / 2 ^ 16 % 32 ≡ a → decode_arg o info addr w Source.rt e ≡ some (e, a)
  unfolding decode_arg
  decode_arg_rt p = rw (sar_field_rt w h, p)

  pub decode_arg_rd : w / 2 ^ 11 % 32 ≡ a → decode_arg o info addr w Source.rd e ≡ some (e, a)
  unfolding decode_arg
  decode_arg_rd p = rw (sar_field_rd w h, p)

  pub decode_arg_nsrc : a ≡ 0 → decode_arg o info addr w Source.nsrc e ≡ some (e, a)
  unfolding decode_arg
  decode_arg_nsrc p = rw p

  pub decode_arg_extra :
      decode_extra o info addr w ≡ some a → decode_arg o info addr w Source.extra e ≡ some (a, a)
  unfolding decode_arg
  decode_arg_extra p = rw (p, decode_arg)
