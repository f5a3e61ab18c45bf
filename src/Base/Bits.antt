-- ===== src/Base/Bits.antt =====
-- Laws of `bit_and`, `bit_or` and `bit_xor` at variables. Each is a function of the pairs of
-- binary digits, so it works on the low k digits and on the rest apart (`join` below).
mod Digits
pub mod Xor
use Digits.{Digitwise, bit_and_step, bit_or_step, bit_xor_step}
use Prim.Native.Nat.{
  ℕ, zero, suc, ◌+◌, ◌-◌, ◌*◌, ◌/◌, ◌%◌, ◌^◌, ◌≤◌, ◌<◌, min, max, differ, bit_and, bit_or, bit_xor,
}
use mathlib.Core.Path.{◌≡◌, refl, ap, ◌∙◌, sym, subst}
use mathlib.Core.Logic.{◌⊎◌, inl, inr}
use native.Mathlib.Nat.{pow-suc, one-le-pow}
use native.Mathlib.Decide.{dec_lt}
use native.Mathlib.Omega.{arith}

-- An operation `g` that acts on each pair of digits by `d`.
module _ (g d : ℕ → ℕ → ℕ) (step : Digitwise g d) where
  double_pow : (q k : ℕ) → q * 2 ^ suc k ≡ 2 * (q * 2 ^ k)
  double_pow q k = omega (arith, ap (λ (t : ℕ). q * t) (pow-suc 2 k))

  join_zero :
      (a b r s : ℕ) → r < 1 → s < 1 → g 0 0 ≡ 0 → g (a * 1 + r) (b * 1 + s) ≡ g a b * 1 + g r s
  join_zero a b r s hr hs z = ground arith

  join :
      (k a b r s : ℕ)
      → g 0 0 ≡ 0
      → r < 2 ^ k
      → s < 2 ^ k
      → g (a * 2 ^ k + r) (b * 2 ^ k + s) ≡ g a b * 2 ^ k + g r s
  join zero a b r s z hr hs = join_zero a b r s (omega arith) (omega arith) z
  join (suc k) a b r s z hr hs = ground (
    arith,
    step (a * 2 ^ suc k + r) (b * 2 ^ suc k + s),
    step r s,
    double_pow a k,
    double_pow b k,
    double_pow (g a b) k,
    pow-suc 2 k,
    join k a b (r / 2) (s / 2) z,
  )

  symmetric : ((a b : ℕ) → d a b ≡ d b a) → g 0 0 ≡ 0 → (n a b : ℕ) → a + b ≤ n → g a b ≡ g b a
  symmetric e z zero a b p = ground arith
  symmetric e z (suc n) a b p = elim (dec_lt 0 (a + b)) [
    | yes h ↦ omega (
      arith,
      step a b,
      step b a,
      e (a % 2) (b % 2),
      symmetric e z n (a / 2) (b / 2) (omega arith),
    )
    | no h ↦ symmetric e z n a b (omega arith)
  ]

  -- Where a digit beside 0 is kept, so is a number.
  keeps_left : ((x : ℕ) → d x 0 ≡ x) → g 0 0 ≡ 0 → (n a : ℕ) → a ≤ n → g a 0 ≡ a
  keeps_left e z n zero p = z
  keeps_left e z zero (suc a) p = absurd (omega arith)
  keeps_left e z (suc n) (suc a) p =
      omega (arith, step (suc a) 0, e (suc a % 2), keeps_left e z n (suc a / 2) (omega arith))

  -- Where a digit beside 0 gives 0, so does a number.
  drops_left : ((x : ℕ) → d x 0 ≡ 0) → g 0 0 ≡ 0 → (n a : ℕ) → a ≤ n → g a 0 ≡ 0
  drops_left e z n zero p = z
  drops_left e z zero (suc a) p = absurd (omega arith)
  drops_left e z (suc n) (suc a) p =
      omega (arith, step (suc a) 0, e (suc a % 2), drops_left e z n (suc a / 2) (omega arith))

min-zero_right : (x : ℕ) → min x 0 ≡ 0
min-zero_right x = omega arith

max-zero_right : (x : ℕ) → max x 0 ≡ x
max-zero_right x = omega arith

differ-zero_right : (x : ℕ) → differ x 0 ≡ x
differ-zero_right zero = refl
differ-zero_right (suc x) = refl

differ_comm : (x y : ℕ) → differ x y ≡ differ y x
differ_comm zero zero = refl
differ_comm zero (suc y) = refl
differ_comm (suc x) zero = refl
differ_comm (suc x) (suc y) = differ_comm x y

pub bit_and-zero : (a : ℕ) → bit_and a 0 ≡ 0
bit_and-zero a = drops_left bit_and min bit_and_step min-zero_right refl a a (omega arith)

pub bit_or-zero : (a : ℕ) → bit_or a 0 ≡ a
bit_or-zero a = keeps_left bit_or max bit_or_step max-zero_right refl a a (omega arith)

pub bit_xor-zero : (a : ℕ) → bit_xor a 0 ≡ a
bit_xor-zero a = keeps_left bit_xor differ bit_xor_step differ-zero_right refl a a (omega arith)

pub bit_and_comm : (a b : ℕ) → bit_and a b ≡ bit_and b a
bit_and_comm a b =
    symmetric bit_and min bit_and_step (λ x y. omega arith) refl (a + b) a b (omega arith)

pub bit_or_comm : (a b : ℕ) → bit_or a b ≡ bit_or b a
bit_or_comm a b =
    symmetric bit_or max bit_or_step (λ x y. omega arith) refl (a + b) a b (omega arith)

pub bit_xor_comm : (a b : ℕ) → bit_xor a b ≡ bit_xor b a
bit_xor_comm a b = symmetric bit_xor differ bit_xor_step differ_comm refl (a + b) a b (omega arith)

pub zero-bit_and : (a : ℕ) → bit_and 0 a ≡ 0
zero-bit_and a = bit_and_comm 0 a ∙ bit_and-zero a

pub zero-bit_or : (a : ℕ) → bit_or 0 a ≡ a
zero-bit_or a = bit_or_comm 0 a ∙ bit_or-zero a

-- The operations work on the low k digits and on the rest apart.
pub bit_and_join :
    (k a b r s : ℕ)
    → r < 2 ^ k
    → s < 2 ^ k
    → bit_and (a * 2 ^ k + r) (b * 2 ^ k + s) ≡ bit_and a b * 2 ^ k + bit_and r s
bit_and_join k a b r s = join bit_and min bit_and_step k a b r s refl

pub bit_or_join :
    (k a b r s : ℕ)
    → r < 2 ^ k
    → s < 2 ^ k
    → bit_or (a * 2 ^ k + r) (b * 2 ^ k + s) ≡ bit_or a b * 2 ^ k + bit_or r s
bit_or_join k a b r s = join bit_or max bit_or_step k a b r s refl

pub bit_xor_join :
    (k a b r s : ℕ)
    → r < 2 ^ k
    → s < 2 ^ k
    → bit_xor (a * 2 ^ k + r) (b * 2 ^ k + s) ≡ bit_xor a b * 2 ^ k + bit_xor r s
bit_xor_join k a b r s = join bit_xor differ bit_xor_step k a b r s refl

-- `|` of a number above bit k and one below it is their sum.
pub bit_or_above : (k q r : ℕ) → r < 2 ^ k → bit_or (q * 2 ^ k) r ≡ q * 2 ^ k + r
bit_or_above k q r h = ground (arith, bit_or_join k q 0 0 r, bit_or-zero q, zero-bit_or r)

pub bit_or_below : (k q r : ℕ) → r < 2 ^ k → bit_or r (q * 2 ^ k) ≡ q * 2 ^ k + r
bit_or_below k q r h = bit_or_comm r (q * 2 ^ k) ∙ bit_or_above k q r h

bit_and_ones : (k q r : ℕ) → r < 2 ^ k → bit_and (q * 2 ^ k + r) (2 ^ k - 1) ≡ r
bit_and_ones zero q r h = ground (arith, bit_and-zero q)
bit_and_ones (suc k) q r h = ground (
  arith,
  bit_and_step (q * 2 ^ suc k + r) (2 ^ suc k - 1),
  ap (λ (t : ℕ). q * t) (pow-suc 2 k),
  pow-suc 2 k,
  one-le-pow k 2,
  bit_and_ones k q (r / 2),
)

-- A mask of k low bits is the remainder by 2 ^ k.
pub bit_and_low : (k a : ℕ) → bit_and a (2 ^ k - 1) ≡ a % 2 ^ k
bit_and_low k a = ground (arith, one-le-pow k 2, bit_and_ones k (a / 2 ^ k) (a % 2 ^ k))

-- A mask of j bits from bit k on.
pub bit_and_field : (k j a : ℕ) → bit_and a ((2 ^ j - 1) * 2 ^ k) ≡ a / 2 ^ k % 2 ^ j * 2 ^ k
bit_and_field k j a = ground (
  arith,
  one-le-pow k 2,
  bit_and_join k (a / 2 ^ k) (2 ^ j - 1) (a % 2 ^ k) 0,
  bit_and_low j (a / 2 ^ k),
  bit_and-zero (a % 2 ^ k),
)

bit_or_gap :
    (k w q r a : ℕ)
    → a < 2 ^ w
    → r < 2 ^ k
    → bit_or (q * 2 ^ w * 2 ^ k + r) (a * 2 ^ k) ≡ q * 2 ^ w * 2 ^ k + r + a * 2 ^ k
bit_or_gap k w q r a ha hr = ground (
  arith,
  bit_or_join k (q * 2 ^ w) a r 0,
  bit_or-zero r,
  ap (λ (t : ℕ). t * 2 ^ k) (bit_or_above w q a ha),
)

-- `|` puts a field of w bits into bits that are 0.
pub bit_or_field :
    (k w v a : ℕ) → a < 2 ^ w → v / 2 ^ k % 2 ^ w ≡ 0 → bit_or v (a * 2 ^ k) ≡ v + a * 2 ^ k
bit_or_field k w v a h free =
    let q = v / 2 ^ k / 2 ^ w in
    let r = v % 2 ^ k in
    let e : v ≡ q * 2 ^ w * 2 ^ k + r = split in
    subst (λ t. bit_or t (a * 2 ^ k) ≡ t + a * 2 ^ k) (sym e)
      (bit_or_gap k w q r a h (omega (arith, one-le-pow k 2)))
  where
    split : v ≡ v / 2 ^ k / 2 ^ w * 2 ^ w * 2 ^ k + v % 2 ^ k
    split = ground (arith, ap (λ (t : ℕ). t * 2 ^ k) upper)
      where
        upper : v / 2 ^ k ≡ v / 2 ^ k / 2 ^ w * 2 ^ w
        upper = ground arith

-- `|` with k ones keeps nothing of a number below 2 ^ k.
pub bit_or_ones : (k r : ℕ) → r < 2 ^ k → bit_or r (2 ^ k - 1) ≡ 2 ^ k - 1
bit_or_ones zero r h = ground (arith, zero-bit_or 0)
bit_or_ones (suc k) r h =
    ground
      (arith, bit_or_step r (2 ^ suc k - 1), pow-suc 2 k, one-le-pow k 2, bit_or_ones k (r / 2))
