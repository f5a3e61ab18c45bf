-- ===== src/Base/Bits/Xor.antt =====
-- Laws of `^`, which undoes itself.
use cse.Base.Bits.Digits.{bit_xor_step}
use cse.Base.Bits.{bit_xor_join, bit_xor-zero}
use Prim.Native.Nat.{ℕ, zero, suc, ◌+◌, ◌*◌, ◌/◌, ◌%◌, ◌^◌, ◌≤◌, ◌<◌, differ, bit_xor}
use mathlib.Core.Path.{◌≡◌, refl, ap, ◌∙◌}
use native.Mathlib.Nat.{
  pow-suc, one-le-pow, mod-lt, mul-add-div_right, mul-add-mod_self_right, mod-eq_of_lt,
  div-eq_of_lt,
}
use native.Mathlib.Decide.{dec_lt}
use native.Mathlib.Omega.{arith}

differ-lt : (x y : ℕ) → x < 2 → y < 2 → differ x y < 2
differ-lt zero y h g = g
differ-lt (suc x) zero h g = h
differ-lt (suc x) (suc y) h g = differ-lt x y (omega arith) (omega arith)

differ_twice : (x y : ℕ) → x < 2 → y < 2 → differ x (differ x y) ≡ y
differ_twice zero y h g = refl
differ_twice (suc zero) zero h g = refl
differ_twice (suc zero) (suc zero) h g = refl
differ_twice (suc (suc x)) y h g = absurd (omega arith)
differ_twice (suc zero) (suc (suc y)) h g = absurd (omega arith)

pub bit_xor-lt : (k r s : ℕ) → r < 2 ^ k → s < 2 ^ k → bit_xor r s < 2 ^ k
bit_xor-lt zero r s h g = ground (arith, bit_xor-zero 0)
bit_xor-lt (suc k) r s h g =
    ground (
      arith,
      bit_xor_step r s,
      pow-suc 2 k,
      bit_xor-lt k (r / 2) (s / 2),
      differ-lt (r % 2) (s % 2),
    )

split :
    (k a b : ℕ)
    → bit_xor a b ≡ bit_xor (a / 2 ^ k) (b / 2 ^ k) * 2 ^ k + bit_xor (a % 2 ^ k) (b % 2 ^ k)
split k a b =
    ground (arith, one-le-pow k 2, bit_xor_join k (a / 2 ^ k) (b / 2 ^ k) (a % 2 ^ k) (b % 2 ^ k))

low-lt : (k a b : ℕ) → bit_xor (a % 2 ^ k) (b % 2 ^ k) < 2 ^ k
low-lt k a b =
    bit_xor-lt k (a % 2 ^ k) (b % 2 ^ k) (mod-lt a (one-le-pow k 2 (omega arith)))
      (mod-lt b (one-le-pow k 2 (omega arith)))

-- The bits of `^` from bit k on.
pub bit_xor-div : (k a b : ℕ) → bit_xor a b / 2 ^ k ≡ bit_xor (a / 2 ^ k) (b / 2 ^ k)
bit_xor-div k a b =
    ap (λ t. t / 2 ^ k) (split k a b)
    ∙ mul-add-div_right (one-le-pow k 2 (omega arith)) (bit_xor (a / 2 ^ k) (b / 2 ^ k))
        (bit_xor (a % 2 ^ k) (b % 2 ^ k))
    ∙ omega (arith, div-eq_of_lt (low-lt k a b))

-- The low k bits of `^`.
pub bit_xor-mod : (k a b : ℕ) → bit_xor a b % 2 ^ k ≡ bit_xor (a % 2 ^ k) (b % 2 ^ k)
bit_xor-mod k a b =
    ap (λ t. t % 2 ^ k) (split k a b)
    ∙ mul-add-mod_self_right (bit_xor (a / 2 ^ k) (b / 2 ^ k)) (2 ^ k)
        (bit_xor (a % 2 ^ k) (b % 2 ^ k))
    ∙ mod-eq_of_lt (low-lt k a b)

bit_xor_twice_upto : (n a b : ℕ) → a + b ≤ n → bit_xor a (bit_xor a b) ≡ b
bit_xor_twice_upto zero a b p = ground (arith, bit_xor-zero 0)
bit_xor_twice_upto (suc n) a b p = elim (dec_lt 0 (a + b)) [
  | yes h ↦ omega (
    arith,
    bit_xor_step a (bit_xor a b),
    bit_xor_step a b,
    ap (differ (a % 2)) low,
    differ_twice (a % 2) (b % 2) (omega arith) (omega arith),
    differ-lt (a % 2) (b % 2) (omega arith) (omega arith),
    bit_xor_twice_upto n (a / 2) (b / 2) (omega arith),
    halves,
    low,
  )
  | no h ↦ bit_xor_twice_upto n a b (omega arith)
]
  where
    low : bit_xor a b % 2 ≡ differ (a % 2) (b % 2)
    low = omega (arith, bit_xor_step a b, differ-lt (a % 2) (b % 2) (omega arith) (omega arith))

    halves : bit_xor (a / 2) (bit_xor a b / 2) ≡ bit_xor (a / 2) (bit_xor (a / 2) (b / 2))
    halves = ap (bit_xor (a / 2)) (bit_xor-div 1 a b)

-- `^` with the same number twice gives a number back.
pub bit_xor_twice : (a b : ℕ) → bit_xor a (bit_xor a b) ≡ b
bit_xor_twice a b = bit_xor_twice_upto (a + b) a b (omega arith)
