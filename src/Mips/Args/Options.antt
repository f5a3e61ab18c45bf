-- ===== src/Mips/Args/Options.antt =====
-- What a successful `validargs` leaves in `global_options`.
use cse.Base.{
  ℕ, suc, zero, ◌+◌, ◌-◌, ◌*◌, ◌/◌, ◌%◌, ◌^◌, ◌≤◌, ◌<◌, ◌≡◌, refl, ap, codes, ◌⊎◌, inl, inr, Bool,
  true, false, List, [], ◌∷◌, ltb, bit_or, bit_and, arith, length, drop, get_or, Bool-cases,
  if_both,
}
use cse.Base.Word.{◌<<◌, ◌+w◌}
use cse.Base.Bits.{bit_or_below, bit_or_field}
use cse.Mips.Text.{
  string_equals, is_hex, all_zero, last_three_zero, base_loop, valid_base, digit, str_to_i,
  str_to_i_from,
}
use cse.Mips.Args.{
  is_arg, validargs, parameters, base_only, endian_only, endian_base, base_endian, then_base,
  then_endian,
}

str_to_i_from-lt : (r : ℕ) (s : List ℕ) → str_to_i_from r s < 2 ^ 32
unfolding str_to_i_from
str_to_i_from-lt r [] = omega arith
str_to_i_from-lt r (c ∷ []) = ground arith
str_to_i_from-lt r (c ∷ d ∷ s) = ground (arith, str_to_i_from-lt ((r +w digit c) << 4) (d ∷ s))

three_zeros :
    (s : List ℕ) (r : ℕ)
    → r % 16 ≡ 0
    → length s ≡ 3
    → all_zero s ≡ true
    → str_to_i_from r s % 4096 ≡ 0
unfolding str_to_i_from all_zero digit
three_zeros [] r h n z = absurd (omega arith)
three_zeros (a ∷ []) r h n z = absurd (omega arith)
three_zeros (a ∷ b ∷ []) r h n z = absurd (omega arith)
three_zeros (a ∷ b ∷ c ∷ []) r h n z = ground arith
three_zeros (a ∷ b ∷ c ∷ d ∷ s) r h n z = absurd (omega arith)

-- Three final zeros give twelve zero bits.
zeros-mod :
    (k : ℕ) (s : List ℕ) (r : ℕ)
    → r % 16 ≡ 0
    → k + 3 ≡ length s
    → all_zero (drop k s) ≡ true
    → str_to_i_from r s % 4096 ≡ 0
unfolding str_to_i_from
zeros-mod zero s r h n z = three_zeros s r h (omega arith) z
zeros-mod (suc k) [] r h n z = absurd (omega arith)
zeros-mod (suc k) (c ∷ []) r h n z = absurd (omega arith)
zeros-mod (suc k) (c ∷ d ∷ s) r h n z = elim (Bool-cases (is_hex c)) [
  | inl e ↦ rw e (zeros-mod k (d ∷ s) ((r +w digit c) << 4) (omega arith) (omega arith) z)
  | inr e ↦ rw e
]

few_zeros : (s : List ℕ) → length s ≤ 3 → all_zero s ≡ true → str_to_i_from 0 s % 4096 ≡ 0
unfolding str_to_i_from all_zero digit
few_zeros [] n z = refl
few_zeros (a ∷ []) n z = ground arith
few_zeros (a ∷ b ∷ []) n z = ground arith
few_zeros (a ∷ b ∷ c ∷ []) n z = three_zeros (a ∷ b ∷ c ∷ []) 0 refl refl z
few_zeros (a ∷ b ∷ c ∷ d ∷ s) n z = absurd (omega arith)

last_three_zero-mod : (s : List ℕ) → last_three_zero s (length s) ≡ true → str_to_i s % 4096 ≡ 0
unfolding last_three_zero str_to_i
last_three_zero-mod s h = elim (Bool-cases (ltb 3 (length s))) [
  | inl e ↦ zeros-mod (length s - 3) s 0 refl (ground arith) (ground arith)
  | inr e ↦ few_zeros s (ground arith) (ground arith)
]

base_loop-zeros :
    (left i n : ℕ) (num s : List ℕ)
    → base_loop left i num s ≡ true
    → i + length s ≡ n
    → last_three_zero num n ≡ true
unfolding base_loop
base_loop-zeros zero i n num s h e = cc
base_loop-zeros (suc left) i n num [] h e = let e' : i ≡ n = omega arith in rw (← e') h
base_loop-zeros (suc left) i n num (c ∷ s) h e =
    base_loop-zeros left (i + 1) n num s (ground arith) (omega arith)

-- A base address that `validBase` accepts is a 32-bit multiple of 4096.
pub valid_base-aligned :
    (num : List ℕ) → valid_base num ≡ true → (str_to_i num % 4096 ≡ 0) × (str_to_i num < 2 ^ 32)
unfolding valid_base str_to_i
valid_base-aligned num h = (
  last_three_zero-mod num (base_loop-zeros 9 0 (length num) num num h (omega arith)),
  str_to_i_from-lt 0 num,
)

-- The bits of `-a` or `-d` and `-e`.
abbrev IsMode : ℕ → Type 0
IsMode o = (o ≡ 0) ⊎ (o ≡ 2) ⊎ (o ≡ 4) ⊎ (o ≡ 6)

-- `global_options` after a success: 1 for help; otherwise the mode and the byte order in bits 1
-- and 2, and above bit 12 the base address.
abbrev pub IsOptions : ℕ → Type 0
IsOptions o = (o ≡ 1) ⊎ (o < 2 ^ 32) × IsMode (o % 4096)

-- The outcome of a part of `validargs`: a failure leaves 0.
abbrev pub IsOutcome : Bool × ℕ → Type 0
IsOutcome r = ((r.0 ≡ false) × (r.1 ≡ 0)) ⊎ ((r.0 ≡ true) × IsOptions r.1)

or_base : (m base : ℕ) → m < 4096 → base % 4096 ≡ 0 → bit_or m base ≡ m + base
or_base m base h z = omega (arith, bit_or_below 12 (base / 4096) m h, ap (bit_or m) (exact base z))
  where
    exact : (b : ℕ) → b % 4096 ≡ 0 → b ≡ b / 4096 * 2 ^ 12
    exact b e = omega arith

or_four : (m base : ℕ) → m < 4 → base % 4096 ≡ 0 → bit_or (m + base) 4 ≡ m + 4 + base
or_four m base h z = omega (arith, bit_or_field 2 1 (m + base) 1 (omega arith) (omega arith))

-- `-a` gives 0 and `-d` gives 2 for the parameters to add to.
abbrev pub IsDirection : ℕ → Type 0
IsDirection m = (m ≡ 0) ⊎ (m ≡ 2)

module _ (argv : List (List ℕ)) (m : ℕ) (direction : IsDirection m) where
  base_only-IsOutcome : IsOutcome (base_only argv m)
  unfolding base_only
  base_only-IsOutcome =
      ground (arith, valid_base-aligned (get_or argv 3 []), or_base m (str_to_i (get_or argv 3 [])))

  endian_only-IsOutcome : IsOutcome (endian_only argv m)
  unfolding endian_only
  endian_only-IsOutcome = ground (arith, or_four m 0)

  then_base-IsOutcome : (e : ℕ) → (e ≡ m) ⊎ (e ≡ m + 4) → IsOutcome (then_base argv e)
  unfolding then_base
  then_base-IsOutcome e h =
      ground (arith, valid_base-aligned (get_or argv 5 []), or_base e (str_to_i (get_or argv 5 [])))

  endian_base-IsOutcome : IsOutcome (endian_base argv m)
  unfolding endian_base
  endian_base-IsOutcome =
      ground (arith, or_four m 0, then_base-IsOutcome (bit_or m 4), then_base-IsOutcome m)

  then_endian-IsOutcome :
      (base : ℕ) → base % 4096 ≡ 0 → base < 2 ^ 32 → IsOutcome (then_endian argv (m + base))
  unfolding then_endian
  then_endian-IsOutcome base z l = ground (arith, or_four m base)

  base_endian-IsOutcome : IsOutcome (base_endian argv m)
  unfolding base_endian
  base_endian-IsOutcome = ground (
    arith,
    valid_base-aligned (get_or argv 3 []),
    or_base m (str_to_i (get_or argv 3 [])),
    then_endian-IsOutcome (str_to_i (get_or argv 3 [])),
  )

  parameters-IsOutcome : IsOutcome (parameters argv m)
  unfolding parameters
  parameters-IsOutcome = if_both IsOutcome _ _ _ plain (
      if_both IsOutcome _ _ _ base_only-IsOutcome (
        if_both IsOutcome _ _ _ endian_only-IsOutcome (
          if_both IsOutcome _ _ _ endian_base-IsOutcome
            (if_both IsOutcome _ _ _ base_endian-IsOutcome (inl (refl, refl))))))
    where
      plain : IsOutcome (true, m)
      plain = ground arith

-- Whatever the arguments are, a failure leaves 0 in `global_options`, and a success leaves 1 (help),
-- or the direction and the byte order in bits 1 and 2 and a multiple of 4096 above them.
pub validargs-IsOutcome : (argv : List (List ℕ)) → IsOutcome (validargs argv)
unfolding validargs
validargs-IsOutcome argv = ground (
  arith,
  parameters-IsOutcome argv (bit_and 0 0) (inl refl),
  parameters-IsOutcome argv 2 (inr refl),
)

abbrev pub base_first : List ℕ → List ℕ → List ℕ → List ℕ → List (List ℕ)
base_first prog mode base order = prog ∷ mode ∷ codes "-b" ∷ base ∷ codes "-e" ∷ order ∷ []

abbrev pub endian_first : List ℕ → List ℕ → List ℕ → List ℕ → List (List ℕ)
endian_first prog mode base order = prog ∷ mode ∷ codes "-e" ∷ order ∷ codes "-b" ∷ base ∷ []

module _ (prog mode base order : List ℕ) where
  swap_parameters :
      (m : ℕ)
      → IsDirection m
      → base_endian (base_first prog mode base order) m
        ≡ endian_base (endian_first prog mode base order) m
  unfolding base_endian endian_base then_base then_endian is_arg
  swap_parameters m d = ground (
    arith,
    valid_base-aligned base,
    or_base m (str_to_i base),
    or_base (m + 4) (str_to_i base),
    or_four m (str_to_i base),
    or_four m 0,
  )

  -- `-b BASEADDR -e ENDIANNESS` and `-e ENDIANNESS -b BASEADDR` come to the same after any first
  -- parameter, refusals included.
  pub validargs_swap :
      validargs (base_first prog mode base order) ≡ validargs (endian_first prog mode base order)
  unfolding validargs parameters is_arg string_equals
  validargs_swap = ground (arith, swap_parameters 0 (inl refl), swap_parameters 2 (inr refl))
