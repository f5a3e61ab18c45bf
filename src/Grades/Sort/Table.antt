-- ===== src/Grades/Sort/Table.antt =====
-- A table after a swap: its length, its elements, and the sum of a weight over it.
use cse.Base.{
  ℕ, zero, suc, ◌+◌, ◌<◌, ◌≡◌, ◌≢◌, refl, sym, ap, ◌∙◌, List, [], ◌∷◌, set, get_or, length,
  length-set, get_or-set_self, get_or-set_ne, arith, reverse,
}
use mathlib.Core.List.{reverse_aux}
use native.Mathlib.Decide.{ℕ_discrete}
use cse.Grades.Sort.{swap}

-- The sum of a weight. Tables with the same sums for all weights have the same elements, each as often.
abbrev pub total {ℓ} : {A : Type ℓ} → (A → ℕ) → List A → ℕ
total w [] = 0
total w (x ∷ xs) = w x + total w xs

module _ {ℓ} {A : Type ℓ} where
  total-reverse_aux :
      (w : A → ℕ) (xs ys : List A) → total w (reverse_aux xs ys) ≡ total w xs + total w ys
  total-reverse_aux w [] ys = omega arith
  total-reverse_aux w (x ∷ xs) ys = omega (arith, total-reverse_aux w xs (x ∷ ys))

  pub total-reverse : (w : A → ℕ) (xs : List A) → total w (reverse xs) ≡ total w xs
  total-reverse w xs = omega (arith, total-reverse_aux w xs [])

  -- The number of the entries is the sum of the weight 1.
  pub total-length : (xs : List A) → total (λ x. 1) xs ≡ length xs
  total-length [] = refl
  total-length (x ∷ xs) = omega (arith, total-length xs)

  pub length-reverse : (xs : List A) → length (reverse xs) ≡ length xs
  length-reverse xs = sym (total-length (reverse xs)) ∙ total-reverse (λ x. 1) xs ∙ total-length xs

module _ {ℓ} {A : Type ℓ} (d : A) where
  total-set :
      (w : A → ℕ) (s : List A) (i : ℕ) (v : A)
      → i < length s
      → total w (set s i v) + w (get_or s i d) ≡ total w s + w v
  total-set w [] i v h = absurd (omega arith)
  total-set w (x ∷ s) zero v h = omega arith
  total-set w (x ∷ s) (suc i) v h = omega (arith, total-set w s i v (omega arith))

  set_same : (s : List A) (i : ℕ) → set s i (get_or s i d) ≡ s
  set_same [] i = refl
  set_same (x ∷ s) zero = refl
  set_same (x ∷ s) (suc i) = ap (λ t. x ∷ t) (set_same s i)

  pub length-swap : (s : List A) (i j : ℕ) → length (swap d s i j) ≡ length s
  unfolding swap
  length-swap s i j = length-set _ i _ ∙ length-set s j _

  pub swap-first : (s : List A) (i j : ℕ) → i < length s → get_or (swap d s i j) i d ≡ get_or s j d
  unfolding swap
  swap-first s i j h =
      get_or-set_self (set s j (get_or s i d)) i (get_or s j d) d
        (omega (arith, length-set s j (get_or s i d)))

  pub swap-second :
      (s : List A) (i j : ℕ)
      → i < length s
      → j < length s
      → get_or (swap d s i j) j d ≡ get_or s i d
  unfolding swap
  swap-second s i j h g = elim (ℕ_discrete i j) [
    | yes e ↦
        ap (λ k. get_or (swap d s i j) k d) (sym e)
        ∙ swap-first s i j h
        ∙ ap (λ k. get_or s k d) (sym e)
    | no e ↦
        get_or-set_ne (set s j (get_or s i d)) i j (get_or s j d) d e
        ∙ get_or-set_self s j (get_or s i d) d g
  ]

  pub swap-other :
      (s : List A) (i j k : ℕ) → i ≢ k → j ≢ k → get_or (swap d s i j) k d ≡ get_or s k d
  unfolding swap
  swap-other s i j k h g =
      get_or-set_ne (set s j (get_or s i d)) i k (get_or s j d) d h
      ∙ get_or-set_ne s j k (get_or s i d) d g

  pub total-swap :
      (w : A → ℕ) (s : List A) (i j : ℕ)
      → i < length s
      → j < length s
      → total w (swap d s i j) ≡ total w s
  unfolding swap
  total-swap w s i j h g = elim (ℕ_discrete i j) [
    | yes e ↦ omega (
      arith,
      total-set w (set s j (get_or s i d)) i (get_or s j d)
          (omega (arith, length-set s j (get_or s i d))),
      total-set w s j (get_or s i d) g,
      ap (λ k. w (get_or (set s j (get_or s i d)) k d)) e,
      ap w (get_or-set_self s j (get_or s i d) d g),
    )
    | no e ↦ omega (
      arith,
      total-set w (set s j (get_or s i d)) i (get_or s j d)
          (omega (arith, length-set s j (get_or s i d))),
      total-set w s j (get_or s i d) g,
      ap w (get_or-set_ne s j i (get_or s i d) d (λ q. e (sym q))),
    )
  ]
