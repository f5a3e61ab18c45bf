-- ===== src/Grades/Sort/Turn.antt =====
-- A call of `partition` that puts no entry low turns the table by one place, and all entries but the
-- pivot are above it.
use cse.Base.{
  ℕ, zero, suc, ◌+◌, ◌<◌, ◌≤◌, ◌≡◌, ◌≢◌, sym, ap, ◌∙◌, Bool, true, false, List, get_or, length,
  Bool-cases, inl, inr, ◌⊎◌, arith,
}
use Prim.Native.Nat.{Ordering}
use native.Mathlib.Decide.{ℕ_discrete}
use cse.Grades.Sort.{goes_high, next_alt, swap, partition_loop}
use cse.Grades.Sort.Table.{length-swap, swap-first, swap-second, swap-other}
use cse.Grades.Sort.Loop.{partition_loop-IsSplit}
use cse.Grades.Sort.Progress.{goes_high-false, goes_high-cases, gt-ne_eq, IsMoved, after_swap}

module _ {ℓ} {A : Type ℓ} (d : A) (compare : A → A → Ordering) where
  -- The next table of the loop has its length.
  fits : (n l : ℕ) (s : List A) → l + suc n ≤ length s → l + n ≤ length (swap d s l (l + n))
  fits n l s h = omega (arith, length-swap d s l (l + n))

  -- A loop that stops where it starts puts every entry high.
  all_high :
      (n : ℕ) (pivot : A) (l : ℕ) (alt : Bool) (s : List A)
      → l + suc n ≤ length s
      → (partition_loop d compare (suc n) pivot l alt s).0 ≡ l
      → goes_high (compare (get_or s l d) pivot) alt ≡ true
  unfolding partition_loop
  all_high n pivot l alt s h e = elim (Bool-cases (goes_high (compare (get_or s l d) pivot) alt)) [
    | inl f ↦ f
    | inr f ↦ absurd (
        omega (
          arith,
          rw f at e,
          (partition_loop-IsSplit d compare n pivot (l + 1)
              (next_alt (compare (get_or s l d) pivot) alt) s (omega arith)).least,
        ))
  ]

  -- The first round of such a loop, when more are left.
  all_high_later :
      (n : ℕ) (pivot : A) (l : ℕ) (alt : Bool) (s : List A)
      → l + suc n ≤ length s
      → (partition_loop d compare (suc n) pivot l alt s).0 ≡ l
      → (partition_loop d compare n pivot l
          (next_alt (compare (get_or s l d) pivot) alt)
          (swap d s l (l + n))).0
        ≡ l
  unfolding partition_loop
  all_high_later n pivot l alt s h e = rw (all_high n pivot l alt s h e) at e

  -- Such a loop leaves the first entry last.
  pub loop-first :
      (n : ℕ) (pivot : A) (l : ℕ) (alt : Bool) (s : List A)
      → l + suc n ≤ length s
      → (partition_loop d compare (suc n) pivot l alt s).0 ≡ l
      → get_or (partition_loop d compare (suc n) pivot l alt s).1 (l + n) d ≡ get_or s l d
  unfolding partition_loop
  loop-first n pivot l alt s h e = rw (all_high n pivot l alt s h e) (
      (partition_loop-IsSplit d compare n pivot l (next_alt (compare (get_or s l d) pivot) alt)
          (swap d s l (l + n)) (fits n l s h)).moves.outside
        (l + n) (inr (omega arith))
      ∙ swap-second d s l (l + n) (omega arith) (omega arith))

  -- Such a loop moves each other entry one place down.
  pub loop-turns :
      (n : ℕ) (pivot : A) (l : ℕ) (alt : Bool) (s : List A)
      → l + suc n ≤ length s
      → (partition_loop d compare (suc n) pivot l alt s).0 ≡ l
      → (j : ℕ) → l ≤ j
      → j < l + n
      → get_or (partition_loop d compare (suc n) pivot l alt s).1 j d ≡ get_or s (j + 1) d
  unfolding partition_loop
  loop-turns zero pivot l alt s h e j p q = absurd (omega arith)
  loop-turns (suc n) pivot l alt s h e j p q =
      rw (all_high (suc n) pivot l alt s h e) (elim (ℕ_discrete j (l + n)) [
        | yes g ↦ rw g (
            loop-first n pivot l _ _ (fits (suc n) l s h) (all_high_later (suc n) pivot l alt s h e)
            ∙ swap-first d s l (l + suc n) (omega arith)
            ∙ ap (λ k. get_or s k d) (omega arith))
        | no g ↦
            loop-turns n pivot l _ _ (fits (suc n) l s h) (all_high_later (suc n) pivot l alt s h e)
              j p (omega arith)
            ∙ swap-other d s l (l + suc n) (j + 1) (omega arith) (omega arith)
      ])

  -- Such a loop with `alt` at -1 meets only entries above the pivot.
  loop-all_gt :
      (n : ℕ) (pivot : A) (l : ℕ) (s : List A) (k : ℕ)
      → l + n ≤ length s
      → (partition_loop d compare n pivot l false s).0 ≡ l
      → l ≤ k
      → k < l + n
      → compare (get_or s k d) pivot ≡ Ordering.gt
  unfolding partition_loop next_alt
  loop-all_gt zero pivot l s k h e p q = absurd (omega arith)
  loop-all_gt (suc n) pivot l s k h e p q = elim (ℕ_discrete l k) [
    | yes g ↦ ap (λ j. compare (get_or s j d) pivot) (sym g) ∙ first
    | no g ↦
        let v = after_swap d n l k s h (omega arith) q in
        ap (λ x. compare x pivot) (sym v.entry)
        ∙ loop-all_gt n pivot l (swap d s l (l + n)) v.place (fits n l s h)
            (rw first at (all_high_later n pivot l false s h e)) v.from v.upto
  ]
    where
      first : compare (get_or s l d) pivot ≡ Ordering.gt
      first = goes_high-false _ (all_high n pivot l false s h e)

  after_swap-apart :
      (n l i k : ℕ) (s : List A) (u : IsMoved d n l i s) (v : IsMoved d n l k s)
      → l < i
      → l < k
      → i ≢ k
      → u.place ≢ v.place
  after_swap-apart n l i k s u v p q f e = ground arith

  -- The entries after an equal one are above the pivot.
  loop-rest_gt :
      (n : ℕ) (pivot : A) (l : ℕ) (s : List A) (k : ℕ)
      → l + suc n ≤ length s
      → (partition_loop d compare (suc n) pivot l true s).0 ≡ l
      → compare (get_or s l d) pivot ≡ Ordering.eq
      → l < k
      → k < l + suc n
      → compare (get_or s k d) pivot ≡ Ordering.gt
  unfolding partition_loop next_alt
  loop-rest_gt n pivot l s k h e c p q =
      let v = after_swap d n l k s h p q in
      ap (λ x. compare x pivot) (sym v.entry)
      ∙ loop-all_gt n pivot l (swap d s l (l + n)) v.place (fits n l s h)
          (rw c at (all_high_later n pivot l true s h e)) v.from v.upto

  -- An entry of such a loop with `alt` at 1 is not below the pivot.
  first-cases :
      (n : ℕ) (pivot : A) (l : ℕ) (s : List A)
      → l + suc n ≤ length s
      → (partition_loop d compare (suc n) pivot l true s).0 ≡ l
      → (compare (get_or s l d) pivot ≡ Ordering.eq) ⊎ (compare (get_or s l d) pivot ≡ Ordering.gt)
  first-cases n pivot l s h e = goes_high-cases _ (all_high n pivot l true s h e)

  -- Such a loop with `alt` at 1 meets at most one entry equal to the pivot.
  pub loop-others_gt :
      (n : ℕ) (pivot : A) (l : ℕ) (s : List A) (i k : ℕ)
      → l + n ≤ length s
      → (partition_loop d compare n pivot l true s).0 ≡ l
      → l ≤ i
      → i < l + n
      → l ≤ k
      → k < l + n
      → i ≢ k
      → compare (get_or s i d) pivot ≡ Ordering.eq
      → compare (get_or s k d) pivot ≡ Ordering.gt
  unfolding partition_loop next_alt
  loop-others_gt zero pivot l s i k h e p q u v f g = absurd (omega arith)
  loop-others_gt (suc n) pivot l s i k h e p q u v f g = elim (first-cases n pivot l s h e) [
    | inl c ↦ elim (ℕ_discrete l k) [
      | yes a ↦ absurd (gt-ne_eq (sym (loop-rest_gt n pivot l s i h e c (omega arith) q) ∙ g))
      | no a ↦ loop-rest_gt n pivot l s k h e c (omega arith) v
    ]
    | inr c ↦ elim (ℕ_discrete l k) [
      | yes a ↦ ap (λ j. compare (get_or s j d) pivot) (sym a) ∙ c
      | no a ↦
          let apart : l < i = elim (ℕ_discrete l i) [
            | yes b ↦ absurd (gt-ne_eq (sym c ∙ ap (λ j. compare (get_or s j d) pivot) b ∙ g))
            | no b ↦ omega arith
          ] in
          let x = after_swap d n l i s h apart q in
          let y = after_swap d n l k s h (omega arith) v in
          ap (λ t. compare t pivot) (sym y.entry)
          ∙ loop-others_gt n pivot l (swap d s l (l + n)) x.place y.place (fits n l s h)
              (rw c at (all_high_later n pivot l true s h e)) x.from x.upto y.from y.upto
              (after_swap-apart n l i k s x y apart (omega arith) f)
              (ap (λ t. compare t pivot) x.entry ∙ g)
    ]
  ]
