-- ===== src/Base/Bits/Digits.antt =====
-- The native operations stand for a recursion on binary digits with fuel; here the fuel is gone.
use Prim.Native.Nat.{
  ℕ, zero, suc, ◌+◌, ◌*◌, ◌/◌, ◌%◌, ◌≤◌, min, max, digits, bitwise, bit_and, bit_or, bit_xor,
  bit_and-bitwise, bit_or-bitwise, bit_xor-bitwise, differ,
}
use mathlib.Core.Path.{◌≡◌, refl, ap}
use native.Mathlib.Omega.{arith}

-- The operation `g` acts on the last digits by `d` and on the others by itself.
abbrev pub Digitwise : (ℕ → ℕ → ℕ) → (ℕ → ℕ → ℕ) → Type 0
Digitwise g d = (a b : ℕ) → g a b ≡ g (a / 2) (b / 2) * 2 + d (a % 2) (b % 2)

module _ (tail : ℕ → ℕ) (d : ℕ → ℕ → ℕ) where
  -- More fuel than the first operand changes nothing.
  enough : (k x y l : ℕ) → x ≤ l → x ≤ k → digits tail d l x y ≡ digits tail d k x y
  enough zero (suc x) y l hl hk = absurd (omega arith)
  enough k (suc x) y zero hl hk = absurd (omega arith)
  enough (suc k) (suc x) y (suc l) hl hk =
      ap (λ (t : ℕ). t * 2 + d (suc x % 2) (y % 2))
        (enough k (suc x / 2) (y / 2) l (omega arith) (omega arith))
  enough zero zero y zero hl hk = refl
  enough zero zero y (suc l) hl hk = refl
  enough (suc k) zero y zero hl hk = refl
  enough (suc k) zero y (suc l) hl hk = refl

  last_digits : ((b : ℕ) → tail b ≡ tail (b / 2) * 2 + d 0 (b % 2)) → Digitwise (bitwise tail d) d
  last_digits e zero y = omega (arith, e y)
  last_digits e (suc x) y =
      omega (arith, enough (suc x / 2) (suc x / 2) (y / 2) x (omega arith) (omega arith))

pub bit_and_step : Digitwise bit_and min
bit_and_step a b = simp bit_and-bitwise (last_digits (λ _. 0) min (λ y. omega arith) a b)

pub bit_or_step : Digitwise bit_or max
bit_or_step a b = simp bit_or-bitwise (last_digits (λ y. y) max (λ y. omega arith) a b)

pub bit_xor_step : Digitwise bit_xor differ
bit_xor_step a b = simp bit_xor-bitwise (last_digits (λ y. y) differ (λ y. omega arith) a b)
