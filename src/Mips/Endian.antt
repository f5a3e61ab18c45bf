-- ===== src/Mips/Endian.antt =====
-- `bigEndian` of `MIPS Convertor/src/hw1.c`: the reversal of the four bytes of a word.
use cse.Base.{ℕ, ◌+◌, ◌*◌, ◌/◌, ◌%◌, ◌^◌, ◌<◌, ◌≡◌, ◌∙◌, ap, bit_and, bit_or, arith}
use cse.Base.Word.{◌<<◌, ◌>>◌}
use cse.Base.Bits.{bit_and_low, bit_and_field, bit_and_join, bit_or_field}

-- The first and the last byte are swapped.
unfoldable pub swap_outer : ℕ → ℕ
swap_outer num = bit_or (bit_or (bit_and num 0x00ffff00) (num << 24)) (num >> 24)

-- The two bytes in the middle are swapped.
unfoldable pub swap_middle : ℕ → ℕ
swap_middle num =
    bit_or (bit_or (bit_and num 0xff0000ff) (bit_and (num >> 8) 0x0000ff00))
      (bit_and (num << 8) 0x00ff0000)

unfoldable pub big_endian : ℕ → ℕ
big_endian num = swap_middle (swap_outer num)

-- A word by its bytes, the most significant first.
abbrev pub word_of : ℕ → ℕ → ℕ → ℕ → ℕ
word_of a b c d = a * 2 ^ 24 + b * 2 ^ 16 + c * 2 ^ 8 + d

swap_outer_bytes :
    (a b c d : ℕ)
    → a < 256
    → b < 256
    → c < 256
    → d < 256
    → swap_outer (word_of a b c d) ≡ word_of d b c a
unfolding swap_outer
swap_outer_bytes a b c d ha hb hc hd = ground (
  arith,
  bit_and_field 8 16 (word_of a b c d),
  bit_or_field 24 8 ((b * 256 + c) * 256) d,
  bit_or_field 0 8 ((b * 256 + c) * 256 + d * 2 ^ 24) a,
)

-- The outer bytes stay under the mask 0xff0000ff.
keep_outer :
    (a b c d : ℕ)
    → a < 256
    → b < 256
    → c < 256
    → d < 256
    → bit_and (word_of a b c d) 0xff0000ff ≡ a * 2 ^ 24 + d
keep_outer a b c d ha hb hc hd = ground (
  arith,
  bit_and_join 24 a 0xff (b * 2 ^ 16 + c * 2 ^ 8 + d) 0xff,
  bit_and_low 8 a,
  bit_and_low 8 (b * 2 ^ 16 + c * 2 ^ 8 + d),
)

swap_middle_bytes :
    (a b c d : ℕ)
    → a < 256
    → b < 256
    → c < 256
    → d < 256
    → swap_middle (word_of a b c d) ≡ word_of a c b d
unfolding swap_middle
swap_middle_bytes a b c d ha hb hc hd = ground (
  arith,
  keep_outer a b c d ha hb hc hd,
  bit_and_field 8 8 (word_of a b c d / 2 ^ 8),
  bit_and_field 16 8 (word_of a b c d << 8),
  bit_or_field 8 8 (a * 2 ^ 24 + d) b,
  bit_or_field 16 8 (a * 2 ^ 24 + d + b * 2 ^ 8) c,
)

-- The four bytes come out in the opposite order.
pub big_endian_bytes :
    (a b c d : ℕ)
    → a < 256
    → b < 256
    → c < 256
    → d < 256
    → big_endian (word_of a b c d) ≡ word_of d c b a
unfolding big_endian
big_endian_bytes a b c d ha hb hc hd =
    ap swap_middle (swap_outer_bytes a b c d ha hb hc hd) ∙ swap_middle_bytes d b c a hd hb hc ha

-- Converting twice gives the word back, so that the same function serves reading and writing.
pub big_endian-big_endian : (v : ℕ) → v < 2 ^ 32 → big_endian (big_endian v) ≡ v
big_endian-big_endian v h =
    let a = v / 2 ^ 24 in
    let b = v / 2 ^ 16 % 256 in
    let c = v / 2 ^ 8 % 256 in
    let d = v % 256 in
    let e : v ≡ word_of a b c d = omega arith in
    omega (
      arith,
      ap big_endian e,
      ap big_endian (
          ap big_endian e
          ∙ big_endian_bytes a b c d (omega arith) (omega arith) (omega arith) (omega arith)),
      big_endian_bytes d c b a (omega arith) (omega arith) (omega arith) (omega arith),
    )
