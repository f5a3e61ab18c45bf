-- ===== src/Grades/Sort/Progress.antt =====
-- Where the loop of `partition` stops.
use cse.Base.{
  ℕ, zero, suc, ◌+◌, ◌<◌, ◌≤◌, ◌≡◌, ◌≢◌, refl, sym, ap, ◌∙◌, Bool, true, false, List, get_or,
  length, Bool-cases, inl, inr, ◌⊎◌, arith,
}
use Prim.Native.Nat.{Ordering}
use native.Mathlib.Decide.{ℕ_discrete}
use cse.Grades.Sort.{goes_high, next_alt, swap, partition_loop}
use cse.Grades.Sort.Table.{length-swap, swap-first, swap-other}
use cse.Grades.Sort.Loop.{partition_loop-IsSplit, goes_high-ne_lt}

-- With `alt` at 1 only an entry below the pivot stays, and with `alt` at -1 only one above it goes.
pub goes_high-true : (c : Ordering) → goes_high c true ≡ false → c ≡ Ordering.lt
unfolding goes_high
goes_high-true Ordering.lt h = refl
goes_high-true Ordering.eq h = ground arith
goes_high-true Ordering.gt h = ground arith

pub goes_high-false : (c : Ordering) → goes_high c false ≡ true → c ≡ Ordering.gt
unfolding goes_high
goes_high-false Ordering.lt h = ground arith
goes_high-false Ordering.eq h = ground arith
goes_high-false Ordering.gt h = refl

pub goes_high-cases :
    (c : Ordering) → goes_high c true ≡ true → (c ≡ Ordering.eq) ⊎ (c ≡ Ordering.gt)
unfolding goes_high
goes_high-cases Ordering.lt h = ground arith
goes_high-cases Ordering.eq h = inl refl
goes_high-cases Ordering.gt h = inr refl

pub eq-ne_lt : Ordering.eq ≢ Ordering.lt
eq-ne_lt h = ground arith

pub gt-ne_eq : Ordering.gt ≢ Ordering.eq
gt-ne_eq h = ground arith

module _ {ℓ} {A : Type ℓ} (d : A) where
  -- Where the entry at k > l stands after the exchange of the entries at l and l + n.
  pub record IsMoved (n l k : ℕ) (s : List A) : Type ℓ where
    pub place : ℕ
    pub from : l ≤ place
    pub upto : place < l + n
    pub entry : get_or (swap d s l (l + n)) place d ≡ get_or s k d
    pub origin : (place ≡ k) ⊎ (k ≡ l + n) × (place ≡ l)

  pub after_swap :
      (n l k : ℕ) (s : List A) → l + suc n ≤ length s → l < k → k < l + suc n → IsMoved n l k s
  after_swap n l k s h p q = elim (ℕ_discrete (l + n) k) [
    | yes e ↦ record {
      place = l;
      from = omega arith;
      upto = omega arith;
      entry = swap-first d s l (l + n) (omega arith) ∙ ap (λ j. get_or s j d) e;
      origin = inr (sym e, refl);
    }
    | no e ↦ record {
      place = k;
      from = omega arith;
      upto = omega arith;
      entry = swap-other d s l (l + n) k (omega arith) e;
      origin = inl refl;
    }
  ]

module _ {ℓ} {A : Type ℓ} (d : A) (compare : A → A → Ordering) where
  -- The loop stops before the end where an entry is equal to the pivot and `alt` is 1.
  pub loop-below_end :
      (n : ℕ) (pivot : A) (l : ℕ) (s : List A) (k : ℕ)
      → l + n ≤ length s
      → l ≤ k
      → k < l + n
      → compare (get_or s k d) pivot ≡ Ordering.eq
      → (partition_loop d compare n pivot l true s).0 < l + n
  unfolding partition_loop next_alt
  loop-below_end zero pivot l s k h p q e = absurd (omega arith)
  loop-below_end (suc n) pivot l s k h p q e =
      elim (Bool-cases (goes_high (compare (get_or s l d) pivot) true)) [
        | inl f ↦ rw f (
            omega (
              arith,
              (partition_loop-IsSplit d compare n pivot l
                  (next_alt (compare (get_or s l d) pivot) true) (swap d s l (l + n))
                  (omega (arith, length-swap d s l (l + n)))).most,
            ))
        | inr f ↦ rw f (
            rw (ap (λ c. next_alt c true) (goes_high-true _ f)) (
              omega (
                arith,
                loop-below_end n pivot (l + 1) s k (omega arith) (later f) (omega arith) e,
              )))
      ]
    where
      later : goes_high (compare (get_or s l d) pivot) true ≡ false → l + 1 ≤ k
      later f = elim (ℕ_discrete l k) [
        | yes g ↦
            absurd (
              eq-ne_lt
                (sym e ∙ ap (λ j. compare (get_or s j d) pivot) (sym g) ∙ goes_high-true _ f))
        | no g ↦ omega arith
      ]

  -- The loop passes l where an entry is below the pivot.
  pub loop-above_start :
      (n : ℕ) (pivot : A) (l : ℕ) (alt : Bool) (s : List A) (k : ℕ)
      → l + n ≤ length s
      → l ≤ k
      → k < l + n
      → compare (get_or s k d) pivot ≡ Ordering.lt
      → l < (partition_loop d compare n pivot l alt s).0
  unfolding partition_loop
  loop-above_start zero pivot l alt s k h p q e = absurd (omega arith)
  loop-above_start (suc n) pivot l alt s k h p q e =
      elim (Bool-cases (goes_high (compare (get_or s l d) pivot) alt)) [
        | inl f ↦ rw f (
            loop-above_start n pivot l (next_alt (compare (get_or s l d) pivot) alt)
              (swap d s l (l + n)) (moved f).place (omega (arith, length-swap d s l (l + n)))
              (moved f).from (moved f).upto (ap (λ x. compare x pivot) (moved f).entry ∙ e))
        | inr f ↦ rw f (
            omega (
              arith,
              (partition_loop-IsSplit d compare n pivot (l + 1)
                  (next_alt (compare (get_or s l d) pivot) alt) s (omega arith)).least,
            ))
      ]
    where
      moved : goes_high (compare (get_or s l d) pivot) alt ≡ true → IsMoved d n l k s
      moved f = elim (ℕ_discrete l k) [
        | yes g ↦ absurd (goes_high-ne_lt _ alt f (ap (λ j. compare (get_or s j d) pivot) g ∙ e))
        | no g ↦ after_swap d n l k s h (omega arith) q
      ]
