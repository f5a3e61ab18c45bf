-- ===== src/Base/Word.antt =====
-- 32-bit words. An `int` and an `unsigned int` are both held as a bit pattern below 2 ^ 32; the
-- operations differ only in how they shift right and compare.
use Prim.Native.Nat.{ℕ, ◌+◌, ◌-◌, ◌*◌, ◌/◌, ◌%◌, ◌^◌, compare, Ordering}
use mathlib.Core.Bool.{Bool, true, false}

abbrev pub u32 : ℕ → ℕ
u32 n = n % 2 ^ 32

abbrev pub u64 : ℕ → ℕ
u64 n = n % 2 ^ 64

abbrev pub u8 : ℕ → ℕ
u8 n = n % 2 ^ 8

-- `x << k` and `x >> k` on `unsigned int`.
infixl 75 ◌<<◌ ◌>>◌
abbrev pub ◌<<◌ : ℕ → ℕ → ℕ
x << k = u32 (x * 2 ^ k)

abbrev pub ◌>>◌ : ℕ → ℕ → ℕ
x >> k = x / 2 ^ k

-- Is the `int` with this pattern negative?
abbrev pub is_neg : ℕ → Bool
is_neg x = elim (compare x (2 ^ 31)) [ Ordering.lt ↦ false | _ ↦ true ]

-- `x >> k` on `int`, which repeats the sign.
abbrev pub sar : ℕ → ℕ → ℕ
sar x k = elim (is_neg x) [ false ↦ x / 2 ^ k | true ↦ x / 2 ^ k + (2 ^ 32 - 2 ^ (32 - k)) ]

-- Addition and subtraction, which wrap. `-` on ℕ stops at 0, so the modulus comes first.
infixl 65 ◌+w◌ ◌-w◌
abbrev pub ◌+w◌ : ℕ → ℕ → ℕ
a +w b = u32 (a + b)

abbrev pub ◌-w◌ : ℕ → ℕ → ℕ
a -w b = u32 (a + 2 ^ 32 - b)
