-- ===== src/Mips/Main/Laws.antt =====
-- What the loops of `main.c` do with words and instructions.
use cse.Base.{ℕ, ◌^◌, ◌<◌, ◌≡◌, refl, ◌∙◌, ap, Bool, true, false, List, [], ◌∷◌, arith}
use cse.Base.Word.{◌+w◌}
use cse.Mips.Isa.{Opcode, Three, InstrInfo, Instruction}
use cse.Mips.Encode.{encode}
use cse.Mips.Decode.{decode}
use cse.Mips.Endian.{word_of, big_endian_bytes, big_endian-big_endian}
use cse.Mips.RoundTrip.Codes.{row_of}
use cse.Mips.RoundTrip.Fits.{Fits, with_opcode}
use cse.Mips.RoundTrip.Table.{decode-encode}
use cse.Mips.Main.{disassemble, in_order, put_word, Line}

-- The four bytes of a word are written most significant first with `-e b`, and least significant
-- first without it.
pub put_word-in_order :
    (a b c d : ℕ)
    → a < 256
    → b < 256
    → c < 256
    → d < 256
    → (put_word 4 (in_order true (word_of a b c d)) ≡ a ∷ b ∷ c ∷ d ∷ [])
      × (put_word 4 (in_order false (word_of a b c d)) ≡ d ∷ c ∷ b ∷ a ∷ [])
unfolding put_word in_order
put_word-in_order a b c d ha hb hc hd =
    (ground (arith, big_endian_bytes a b c d ha hb hc hd), ground arith)

-- A program: the opcode and the instruction at each address.
abbrev pub Program : Type 0
Program = List (Opcode × Instruction)

abbrev pub FitsFrom : ℕ → Program → Type 0
FitsFrom addr [] = Unit
FitsFrom addr ((o, ip) ∷ p) = Fits (with_opcode o ip) addr × FitsFrom (addr +w 4) p

-- The words that `encode` makes of a program, in the byte order of the file.
unfoldable pub words_of : Bool → ℕ → Program → List ℕ
words_of endi addr [] = []
words_of endi addr ((o, ip) ∷ p) =
    in_order endi (encode (with_opcode o ip) addr).1.value ∷ words_of endi (addr +w 4) p

-- The lines that are to be printed: the format of each opcode with the arguments.
unfoldable pub lines_of : Program → List Line
lines_of [] = []
lines_of ((o, ip) ∷ p) = ((row_of o).format, ip.args) ∷ lines_of p

in_order_twice : (endi : Bool) (v : ℕ) → v < 2 ^ 32 → in_order endi (in_order endi v) ≡ v
unfolding in_order
in_order_twice true v h = big_endian-big_endian v h
in_order_twice false v h = refl

disassemble-cons :
    (endi : Bool) (addr v : ℕ) (instr : Instruction) (words : List ℕ) (f : List ℕ) (args : Three ℕ)
    → let back = decode (record instr { value = in_order endi v }) addr in
      (back.0 ≡ true)
      → (back.1.info.format ≡ f)
      → (back.1.args ≡ args)
      → disassemble endi addr instr (v ∷ words)
        ≡ (let rest = disassemble endi (addr +w 4) back.1 words in ((f, args) ∷ rest.0, rest.1))
unfolding disassemble
disassemble-cons endi addr v instr words f args p q r = rw (p, q, r)

-- A program of instructions that fit at their addresses is encoded, and the disassembler prints
-- exactly its lines and succeeds, in either byte order and from any contents of `instr`.
pub disassemble-words_of :
    (endi : Bool) (addr : ℕ) (p : Program) (instr : Instruction)
    → FitsFrom addr p
    → disassemble endi addr instr (words_of endi addr p) ≡ (lines_of p, true)
unfolding words_of lines_of
disassemble-words_of endi addr [] instr h = unfold disassemble in refl
disassemble-words_of endi addr ((o, ip) ∷ p) instr h =
    let v = (encode (with_opcode o ip) addr).1.value in
    let trip = decode-encode o ip addr h.0 in
    let same : in_order endi (in_order endi v) ≡ v = in_order_twice endi v trip.1 in
    let back = trip.2 instr in
    let at = λ (x : ℕ). decode (record instr { value = x }) addr in
    disassemble-cons endi addr (in_order endi v) instr (words_of endi (addr +w 4) p)
      (row_of o).format ip.args (ap (λ x. (at x).0) same ∙ back.0)
      (ap (λ x. (at x).1.info.format) same ∙ ap (λ (i : InstrInfo). i.format) back.1)
      (ap (λ x. (at x).1.args) same ∙ back.2)
    ∙ rw (disassemble-words_of endi (addr +w 4) p _ h.1)
