-- ===== src/Audible/Options/Outcome.antt =====
-- What a successful `validargs` leaves in `global_options`.
use cse.Base.{
  ℕ, ◌+◌, ◌-◌, ◌*◌, ◌^◌, ◌<◌, ◌≡◌, refl, ap, Bool, true, not, ◌&&◌, ◌||◌, List, [], ◌∷◌, ◌==◌, ltb,
  if_both, length, get_or, bit_or, ◌⊎◌, inl, inr, arith, Bool-cases,
}
use cse.Base.Word.{u32, ◌+w◌}
use cse.Base.Bits.{bit_or_field}
use cse.Audible.Options.{
  factor, key, string_length, is_hex, hex_str_to_dec, hex_loop, dec_str_to_dec, is_arg, preserve,
  speed, crypt, validargs,
}

-- Mode in bits 63:60, -p in bit 59, the field below it in the bits from k on, w of them.
abbrev pub IsLaidOut : ℕ → ℕ → ℕ → ℕ → Type 0
IsLaidOut mode k w options =
    (p : ℕ) × (f : ℕ) × (p < 2) × (f < 2 ^ w) × (options ≡ mode * 2 ^ 60 + p * 2 ^ 59 + f * 2 ^ k)

hex_loop-lt : (num : ℕ) (s : List ℕ) → num < 2 ^ 32 → hex_loop num s < 2 ^ 32
unfolding hex_loop
hex_loop-lt num [] h = h
hex_loop-lt num (c ∷ s) h =
    if_both P (ltb 47 c && ltb c 58) _ _ (hex_loop-lt (u32 (num * 16) +w (c - 48)) s (omega arith))
      (if_both P (ltb 64 c && ltb c 71) _ _
        (hex_loop-lt (u32 (num * 16) +w (c - 65 + 10)) s (omega arith))
        (if_both P (ltb 96 c && ltb c 103) _ _
          (hex_loop-lt (u32 (num * 16) +w (c - 97 + 10)) s (omega arith)) (omega arith)))
  where
    P : ℕ → Type 0
    P v = v < 2 ^ 32

preserve-add : (mode : ℕ) → mode < 16 → preserve (mode * 2 ^ 60) ≡ mode * 2 ^ 60 + 2 ^ 59
preserve-add mode h = bit_or_field 59 1 (mode * 2 ^ 60) 1 (omega arith) (omega arith)

-- A result that is a success has options laid out so.
abbrev Yields : ℕ → ℕ → ℕ → Bool × ℕ → Type 0
Yields mode k w r = r.0 ≡ true → IsLaidOut mode k w r.1

factor-Yields :
    (mode p v : ℕ) (str : List ℕ)
    → p < 2
    → v ≡ mode * 2 ^ 60 + p * 2 ^ 59
    → Yields mode 48 10 (factor str v)
unfolding factor
factor-Yields mode p v str h e = elim (Bool-cases (ltb 0 n && ltb n 1025)) [
  | inl f ↦ rw f (λ t. (
    p,
    n - 1,
    h,
    ground (arith, f),
    omega (arith, e, bit_or_field 48 10 v (n - 1) (ground (arith, f)) (omega (arith, e))),
  ))
  | inr f ↦ rw f (λ t. ground arith)
]
  where
    n : ℕ
    n = dec_str_to_dec str

key-Yields :
    (mode p v : ℕ) (str : List ℕ)
    → p < 2
    → v ≡ mode * 2 ^ 60 + p * 2 ^ 59
    → Yields mode 0 32 (key str v)
unfolding key hex_str_to_dec
key-Yields mode p v str h e = elim (Bool-cases (ltb 8 (string_length str) || not (is_hex str))) [
  | inl f ↦ rw f (λ t. ground arith)
  | inr f ↦ rw f (λ t. (p, hex_loop 0 str, h, small, layout))
]
  where
    small : hex_loop 0 str < 2 ^ 32
    small = hex_loop-lt 0 str (omega arith)

    scaled : bit_or v (hex_loop 0 str) ≡ bit_or v (hex_loop 0 str * 2 ^ 0)
    scaled = ap (bit_or v) (omega arith)

    layout : bit_or v (hex_loop 0 str) ≡ mode * 2 ^ 60 + p * 2 ^ 59 + hex_loop 0 str * 2 ^ 0
    layout = omega (arith, e, scaled, bit_or_field 0 32 v (hex_loop 0 str) small (omega (arith, e)))

-- The results of `-u` and `-d`, and of `-c`.
speed-Yields :
    (mode : ℕ) (argv : List (List ℕ)) → mode < 16 → Yields mode 48 10 (speed argv (mode * 2 ^ 60))
unfolding speed
speed-Yields mode argv h = if_both P (length argv == 3 && is_arg "-p" argv 2) _ _ alone (
    if_both P (length argv == 4 && is_arg "-f" argv 2) _ _
      (factor-Yields mode 0 _ (get_or argv 3 []) (omega arith) (omega arith))
      (if_both P (length argv == 5 && (is_arg "-p" argv 2 && is_arg "-f" argv 3)) _ _
        (factor-Yields mode 1 _ (get_or argv 4 []) (omega arith) kept)
        (if_both P (length argv == 5 && (is_arg "-p" argv 4 && is_arg "-f" argv 2)) _ _
          (factor-Yields mode 1 _ (get_or argv 3 []) (omega arith) kept) (λ t. ground arith))))
  where
    P : Bool × ℕ → Type 0
    P = Yields mode 48 10

    kept : preserve (mode * 2 ^ 60) ≡ mode * 2 ^ 60 + 1 * 2 ^ 59
    kept = preserve-add mode h

    alone : P (true, preserve (mode * 2 ^ 60))
    alone t = (1, 0, omega arith, omega arith, omega (arith, kept))

crypt-Yields :
    (mode : ℕ) (argv : List (List ℕ)) → mode < 16 → Yields mode 0 32 (crypt argv (mode * 2 ^ 60))
unfolding crypt
crypt-Yields mode argv h =
    if_both P (length argv == 4 && is_arg "-k" argv 2) _ _
      (key-Yields mode 0 _ (get_or argv 3 []) (omega arith) (omega arith))
      (if_both P (length argv == 5 && (is_arg "-p" argv 2 && is_arg "-k" argv 3)) _ _
        (key-Yields mode 1 _ (get_or argv 4 []) (omega arith) (preserve-add mode h))
        (if_both P (length argv == 5 && (is_arg "-p" argv 4 && is_arg "-k" argv 2)) _ _
          (key-Yields mode 1 _ (get_or argv 3 []) (omega arith) (preserve-add mode h))
          (λ t. ground arith)))
  where
    P : Bool × ℕ → Type 0
    P = Yields mode 0 32

-- Help; or speed up or slow down with the factor less 1; or crypt with the key.
abbrev pub IsRecoding : ℕ → Type 0
IsRecoding options =
    (options ≡ 2 ^ 63)
    ⊎ IsLaidOut 4 48 10 options
    ⊎ IsLaidOut 2 48 10 options
    ⊎ IsLaidOut 1 0 32 options

-- Where `validargs` succeeds, `global_options` is 2 ^ 63, or it has mode 4 (-u) or 2 (-d) in its upper
-- four bits, -p in bit 59 and a number below 1024 in bits 57:48, or mode 1 (-c), -p in bit 59 and a
-- 32-bit key; all other bits are 0.
pub validargs-IsRecoding :
    (argv : List (List ℕ)) → (validargs argv).0 ≡ true → IsRecoding (validargs argv).1
unfolding validargs
validargs-IsRecoding argv =
    if_both P (ltb (length argv) 2) _ _ (λ t. ground arith)
      (if_both P (is_arg "-h" argv 1) _ _ (λ t. inl refl)
        (if_both P (is_arg "-u" argv 1) _ _
          (if_both P (length argv == 2) _ _ (λ t. inr (inl (0, 0, omega arith, omega arith, refl)))
            (λ t. inr (inl (speed-Yields 4 argv (omega arith) t))))
          (if_both P (is_arg "-d" argv 1) _ _
            (if_both P (length argv == 2) _ _
              (λ t. inr (inr (inl (0, 0, omega arith, omega arith, refl))))
              (λ t. inr (inr (inl (speed-Yields 2 argv (omega arith) t)))))
            (if_both P (is_arg "-c" argv 1) _ _
              (λ t. inr (inr (inr (crypt-Yields 1 argv (omega arith) t)))) (λ t. ground arith)))))
  where
    P : Bool × ℕ → Type 0
    P r = r.0 ≡ true → IsRecoding r.1
