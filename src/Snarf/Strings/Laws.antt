-- ===== src/Snarf/Strings/Laws.antt =====
-- Searches and prefixes in a string that is put together, and the decimal digits of a number.
use cse.Base.{
  ℕ, zero, suc, ◌+◌, ◌-◌, ◌*◌, ◌/◌, ◌%◌, ◌^◌, ◌<◌, ◌≤◌, ◌≡◌, ◌≢◌, refl, ap, ◌∙◌, true, false, some,
  List, [], ◌∷◌, ◌++◌, ◌==◌, ltb, take, drop, length, All, arith, Bool-cases, inl, inr, ==_refl,
}
use cse.Base.Word.{u32}
use cse.Snarf.Strings.{strchr, is_digit, atoi_from, atoi, decimal_from, decimal}

-- The string has no byte c.
abbrev pub Lacks : ℕ → List ℕ → Type 0
Lacks c s = All (λ d. d ≢ c) s

pub Lacks-append : (c : ℕ) (s t : List ℕ) → Lacks c s → Lacks c t → Lacks c (s ++ t)
Lacks-append c [] t h g = g
Lacks-append c (d ∷ s) t h g = (h.0, Lacks-append c s t h.1 g)

pub strchr-append : (s t : List ℕ) (c : ℕ) → Lacks c s → strchr (s ++ (c ∷ t)) c ≡ some (length s)
unfolding strchr
strchr-append [] t c h = rw (==_refl c) refl
strchr-append (d ∷ s) t c h = rw (other, strchr-append s t c h.1) refl
  where
    other : (d == c) ≡ false
    other = ground (arith, h.0)

module _ {ℓ} {A : Type ℓ} where
  pub take-append : (s t : List A) → take (length s) (s ++ t) ≡ s
  take-append [] t = refl
  take-append (c ∷ s) t = ap (λ r. c ∷ r) (take-append s t)

  pub drop-append : (s t : List A) → drop (length s) (s ++ t) ≡ t
  drop-append [] t = refl
  drop-append (c ∷ s) t = drop-append s t

-- All bytes are digits.
abbrev pub Digits : List ℕ → Type 0
Digits ds = All (λ d. is_digit d ≡ true) ds

Digits-snoc : (ds : List ℕ) (d : ℕ) → Digits ds → is_digit d ≡ true → Digits (ds ++ (d ∷ []))
Digits-snoc [] d h e = (e, tt)
Digits-snoc (c ∷ ds) d h e = (h.0, Digits-snoc ds d h.1 e)

decimal_from-Digits : (fuel n : ℕ) → Digits (decimal_from fuel n)
unfolding decimal_from
decimal_from-Digits zero n = (ground arith, tt)
decimal_from-Digits (suc fuel) n = elim (Bool-cases (ltb n 10)) [
  | inl e ↦ rw e (ground (arith, e), tt)
  | inr e ↦ rw e (
      Digits-snoc (decimal_from fuel (n / 10)) _ (decimal_from-Digits fuel (n / 10)) (ground arith))
]

pub decimal-Digits : (n : ℕ) → Digits (decimal n)
unfolding decimal
decimal-Digits n = decimal_from-Digits n n

-- One more digit at the end.
atoi_from-snoc :
    (ds : List ℕ) (d m : ℕ)
    → Digits ds
    → is_digit d ≡ true
    → atoi_from m (ds ++ (d ∷ [])) ≡ u32 (atoi_from m ds * 10 + (d - 48))
unfolding atoi_from
atoi_from-snoc [] d m h e = rw e refl
atoi_from-snoc (c ∷ ds) d m h e = rw (h.0) (atoi_from-snoc ds d (u32 (m * 10 + (c - 48))) h.1 e)

atoi_from-decimal : (fuel n : ℕ) → n ≤ fuel → n < 2 ^ 32 → atoi_from 0 (decimal_from fuel n) ≡ n
unfolding decimal_from atoi_from
atoi_from-decimal zero zero h l = refl
atoi_from-decimal zero (suc n) h l = absurd (omega arith)
atoi_from-decimal (suc fuel) n h l = elim (Bool-cases (ltb n 10)) [
  | inl e ↦ rw e (ground (arith, e))
  | inr e ↦ rw e (
      atoi_from-snoc (decimal_from fuel (n / 10)) (n % 10 + 48) 0
        (decimal_from-Digits fuel (n / 10)) (ground arith)
      ∙ omega (arith, atoi_from-decimal fuel (n / 10) (ground (arith, e)) (omega arith)))
]

pub atoi-decimal : (n : ℕ) → n < 2 ^ 32 → atoi (decimal n) ≡ n
unfolding atoi decimal
atoi-decimal n h = atoi_from-decimal n n (omega arith) h
