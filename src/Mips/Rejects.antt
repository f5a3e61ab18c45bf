-- ===== src/Mips/Rejects.antt =====
-- Instructions that the assembler refuses, or encodes to a word that the disassembler refuses.
use cse.Base.{
  ℕ, ◌≡◌, ◌≢◌, refl, Bool, true, false, none, some, List, arith, ◌==◌, Bool-cases, Option-cases,
  inl, inr,
}
use cse.Base.Word.{sar, ◌+w◌, ◌-w◌}
use cse.Mips.Isa.{Opcode, opcode_eq, InstrType, Source, Three, InstrInfo, Instruction}
use cse.Mips.Encode.{
  encode, encode_word, encode_args, encode_arg, encode_bits, encode_extra, encode_typed,
  encode_immediate, immediate, is_branch, index_of, encode_opcode, is_ntyp,
}
use cse.Mips.RoundTrip.Codes.{row_of}
use cse.Mips.Main.{assemble_found, count_arg, count_args, copy_regs, is_malformed}

-- A round that returns 0, and the rounds after it.
module _ (ip : Instruction) (addr : ℕ) (s : Source) (a : ℕ) where
  encode_arg-none :
      (r : Bool × ℕ) → encode_bits ip addr s a ≡ none → (encode_arg ip addr s a r).0 ≡ false
  unfolding encode_arg
  encode_arg-none (false, v) h = refl
  encode_arg-none (true, v) h = rw (h, encode_arg)

  encode_arg-false : (r : Bool × ℕ) → r.0 ≡ false → (encode_arg ip addr s a r).0 ≡ false
  unfolding encode_arg
  encode_arg-false (false, v) h = refl
  encode_arg-false (true, v) h = cc

module _ (ip : Instruction) (addr : ℕ) where
  open ip use {args, info.{srcs}}

  encode_args-none_at1 :
      (r : Bool × ℕ)
      → encode_bits ip addr srcs.at1 args.at1 ≡ none
      → (encode_args ip addr r).0 ≡ false
  unfolding encode_args
  encode_args-none_at1 r h =
      encode_arg-false ip addr srcs.at2 args.at2 _
        (encode_arg-none ip addr srcs.at1 args.at1 (encode_arg ip addr srcs.at0 args.at0 r) h)

  encode_args-none_at2 :
      (r : Bool × ℕ)
      → encode_bits ip addr srcs.at2 args.at2 ≡ none
      → (encode_args ip addr r).0 ≡ false
  unfolding encode_args
  encode_args-none_at2 r h =
      let r1 = encode_arg ip addr srcs.at0 args.at0 r in
      encode_arg-none ip addr srcs.at2 args.at2 (encode_arg ip addr srcs.at1 args.at1 r1) h

  encode_word-refused :
      ((r : Bool × ℕ) → (encode_args ip addr r).0 ≡ false) → (encode_word ip addr).0 ≡ false
  unfolding encode_word
  encode_word-refused h = elim (Option-cases (encode_opcode ip.info)) [
    | inl e ↦ rw (e, encode_word)
    | inr (v, e) ↦ rw (e, encode_word) (h (true, v))
  ]

  encode-refused : ((r : Bool × ℕ) → (encode_args ip addr r).0 ≡ false) → (encode ip addr).0 ≡ false
  unfolding encode
  encode-refused h = elim (Bool-cases (is_ntyp ip.info.type)) [
    | inl e ↦ rw e
    | inr e ↦ rw e (encode_word-refused h)
  ]

module _ (ip : Instruction) (addr : ℕ) where
  refused_at1 : encode_bits ip addr ip.info.srcs.at1 ip.args.at1 ≡ none → (encode ip addr).0 ≡ false
  refused_at1 h = encode-refused ip addr (λ r. encode_args-none_at1 ip addr r h)

  refused_at2 : encode_bits ip addr ip.info.srcs.at2 ip.args.at2 ≡ none → (encode ip addr).0 ≡ false
  refused_at2 h = encode-refused ip addr (λ r. encode_args-none_at2 ip addr r h)

-- The immediate of a branch is compared with `extra`.
encode_bits_branch :
    (ip : Instruction) (addr a t : ℕ)
    → opcode_eq ip.info.opcode Opcode.op_break ≡ false
    → ip.info.type ≡ InstrType.ityp
    → is_branch ip.info ≡ true
    → a ≡ t
    → ip.extra ≡ t
    → sar (t -w (addr +w 4)) 2 ≢ t
    → encode_bits ip addr Source.extra a ≡ none
unfolding encode_bits encode_extra encode_typed encode_immediate immediate
encode_bits_branch ip addr a t n ty b e x ne = simp (n, ty, b, e, x) (ground arith)

-- The target of a branch, which is its second or its third argument.
abbrev second_or : Source → ℕ → ℕ → ℕ
second_or Source.extra a b = a
second_or s a b = b

abbrev pub target : InstrInfo → Three ℕ → ℕ
target info args = second_or info.srcs.at1 args.at1 args.at2

-- A branch with its absolute target in `extra` is refused, unless the target happens to be equal to
-- its own offset in words.
pub encode-branch_absolute :
    (o : Opcode) (ip : Instruction) (addr t : ℕ)
    → is_branch (row_of o) ≡ true
    → target (row_of o) ip.args ≡ t
    → ip.extra ≡ t
    → sar (t -w (addr +w 4)) 2 ≢ t
    → (encode (record ip { info = row_of o }) addr).0 ≡ false
unfolding is_branch index_of opcode_eq
encode-branch_absolute Opcode.op_beq ip addr t b e x ne =
    let jp = record ip { info = row_of Opcode.op_beq } in
    refused_at2 jp addr (encode_bits_branch jp addr ip.args.at2 t refl refl refl e x ne)
encode-branch_absolute Opcode.op_bgez ip addr t b e x ne =
    let jp = record ip { info = row_of Opcode.op_bgez } in
    refused_at1 jp addr (encode_bits_branch jp addr ip.args.at1 t refl refl refl e x ne)
encode-branch_absolute Opcode.op_bgezal ip addr t b e x ne =
    let jp = record ip { info = row_of Opcode.op_bgezal } in
    refused_at1 jp addr (encode_bits_branch jp addr ip.args.at1 t refl refl refl e x ne)
encode-branch_absolute Opcode.op_bgtz ip addr t b e x ne =
    let jp = record ip { info = row_of Opcode.op_bgtz } in
    refused_at1 jp addr (encode_bits_branch jp addr ip.args.at1 t refl refl refl e x ne)
encode-branch_absolute Opcode.op_blez ip addr t b e x ne =
    let jp = record ip { info = row_of Opcode.op_blez } in
    refused_at1 jp addr (encode_bits_branch jp addr ip.args.at1 t refl refl refl e x ne)
encode-branch_absolute Opcode.op_bltz ip addr t b e x ne =
    let jp = record ip { info = row_of Opcode.op_bltz } in
    refused_at1 jp addr (encode_bits_branch jp addr ip.args.at1 t refl refl refl e x ne)
encode-branch_absolute Opcode.op_bltzal ip addr t b e x ne =
    let jp = record ip { info = row_of Opcode.op_bltzal } in
    refused_at1 jp addr (encode_bits_branch jp addr ip.args.at1 t refl refl refl e x ne)
encode-branch_absolute Opcode.op_bne ip addr t b e x ne =
    let jp = record ip { info = row_of Opcode.op_bne } in
    refused_at2 jp addr (encode_bits_branch jp addr ip.args.at2 t refl refl refl e x ne)
encode-branch_absolute o ip addr t b e x ne = cc

-- The loop of `main` puts the target of a branch into `extra`.
count_args-target :
    (o : Opcode) (args : Three ℕ) (old x n : ℕ)
    → is_branch (row_of o) ≡ true
    → count_args (row_of o) args old ≡ some (x, n)
    → x ≡ target (row_of o) args
unfolding is_branch index_of opcode_eq count_args count_arg
count_args-target Opcode.op_beq args old x n b h = ground arith
count_args-target Opcode.op_bgez args old x n b h = ground arith
count_args-target Opcode.op_bgezal args old x n b h = ground arith
count_args-target Opcode.op_bgtz args old x n b h = ground arith
count_args-target Opcode.op_blez args old x n b h = ground arith
count_args-target Opcode.op_bltz args old x n b h = ground arith
count_args-target Opcode.op_bltzal args old x n b h = ground arith
count_args-target Opcode.op_bne args old x n b h = ground arith
count_args-target o args old x n b h = cc

-- The assembler refuses every branch of which it reads the absolute target `t`, as the disassembler
-- prints it, unless `t` is equal to its own offset in words from the next instruction.
pub assemble_found-branch :
    (endi : Bool) (addr : ℕ) (instr : Instruction) (line : List ℕ) (o : Opcode) (amt : ℕ)
    (args : Three ℕ)
    → is_branch (row_of o) ≡ true
    → let t = target (row_of o) args in
      sar (t -w (addr +w 4)) 2 ≢ t
      → assemble_found endi addr instr line (row_of o, amt, args) ≡ none
unfolding assemble_found
assemble_found-branch endi addr instr line o amt args b ne =
    elim (Bool-cases (is_malformed line (row_of o) amt)) [
      | inl e ↦ rw e
      | inr e ↦ elim (Option-cases (count_args (row_of o) args instr.extra)) [
        | inl c ↦ rw (e, c)
        | inr ((x, n), c) ↦
            rw (e, c)
              (elim (Bool-cases (n == amt)) [ inl q ↦ rw (q, refused x n c) | inr q ↦ rw q ])
      ]
    ]
  where
    refused :
        (x n : ℕ)
        → count_args (row_of o) args instr.extra ≡ some (x, n)
        → (encode
            (record instr {
              info = row_of o;
              regs = copy_regs (row_of o) args instr.regs;
              extra = x;
              args = args;
            })
            addr).0
          ≡ false
    refused x n c =
        encode-branch_absolute o
          (record instr {
            info = row_of o;
            regs = copy_regs (row_of o) args instr.regs;
            extra = x;
            args = args;
          })
          addr (target (row_of o) args) b refl (count_args-target o args instr.extra x n b c) ne
