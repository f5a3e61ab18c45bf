-- ===== src/Grades/Sort/Rounds.antt =====
-- One call of `partition`, and the one after a call which puts no entry low.
use cse.Base.{ℕ, suc, ◌+◌, ◌-◌, ◌/◌, ◌<◌, ◌≤◌, ◌≡◌, ◌≢◌, ap, ◌∙◌, true, List, get_or, length, arith}
use Prim.Native.Nat.{Ordering}
use native.Mathlib.Decide.{dec_lt}
use cse.Grades.Sort.{partition_loop, partition}
use cse.Grades.Sort.Loop.{IsSplit, partition_loop-IsSplit}
use cse.Grades.Sort.Progress.{loop-below_end, loop-above_start}
use cse.Grades.Sort.Turn.{loop-first, loop-turns, loop-others_gt}

-- What the sort asks of a comparison.
pub record IsOrder {ℓ} {A : Type ℓ} (compare : A → A → Ordering) : Type ℓ where
  pub same : (x : A) → compare x x ≡ Ordering.eq
  pub flip : (x y : A) → compare x y ≡ Ordering.gt → compare y x ≡ Ordering.lt
  pub back : (x y : A) → compare x y ≡ Ordering.lt → compare y x ≡ Ordering.gt
  pub trans :
      (x y z : A)
      → compare x y ≢ Ordering.gt
      → compare y z ≢ Ordering.gt
      → compare x z ≢ Ordering.gt

module _ {ℓ} {A : Type ℓ} (d : A) (compare : A → A → Ordering) where
  -- The entry that `partition` takes as the pivot.
  abbrev pub pivot_of : List A → ℕ → ℕ → A
  pivot_of s l n = get_or s ((l + (l + n)) / 2) d

  partition_as_loop :
      (s : List A) (l n : ℕ)
      → partition d compare s l (l + n) ≡ partition_loop d compare n (pivot_of s l n) l true s
  unfolding partition
  partition_as_loop s l n =
      ap (λ k. partition_loop d compare k (pivot_of s l n) l true s) (omega arith)

  pub partition-IsSplit :
      (s : List A) (l n : ℕ)
      → l + n ≤ length s
      → IsSplit d compare n l (pivot_of s l n) s (partition d compare s l (l + n))
  partition-IsSplit s l n h =
      rw (partition_as_loop s l n) (partition_loop-IsSplit d compare n (pivot_of s l n) l true s h)

  module _ (order : IsOrder compare) where
    pub partition-below_end :
        (s : List A) (l n : ℕ)
        → l + suc n ≤ length s
        → (partition d compare s l (l + suc n)).0 < l + suc n
    partition-below_end s l n h = rw (partition_as_loop s l (suc n)) (
        loop-below_end d compare (suc n) (pivot_of s l (suc n)) l s ((l + (l + suc n)) / 2) h
          (omega arith) (omega arith) (order.same (pivot_of s l (suc n))))

    -- The table after a call that puts no entry low has the old pivot one place down, and all others are
    -- above it.
    after_turn :
        (s : List A) (l n : ℕ)
        → l + suc (suc n) ≤ length s
        → (partition d compare s l (l + suc (suc n))).0 ≡ l
        → compare
            (pivot_of (partition d compare s l (l + suc (suc n))).1 l (suc (suc n)))
            (pivot_of s l (suc (suc n)))
          ≡ Ordering.gt
    after_turn s l n h e =
        let q = partition_as_loop s l (suc (suc n)) in
        let f = rw q at e in
        let p = pivot_of s l (suc (suc n)) in
        let m = (l + (l + suc (suc n))) / 2 in
        rw q (elim (dec_lt m (l + suc n)) [
          | yes g ↦
              ap (λ x. compare x p) (loop-turns d compare (suc n) p l true s h f m (omega arith) g)
              ∙ loop-others_gt d compare (suc (suc n)) p l s m (m + 1) h f (omega arith)
                  (omega arith) (omega arith) (omega arith) (omega arith) (order.same p)
          | no g ↦
              ap (λ k. compare (get_or (partition_loop d compare (suc (suc n)) p l true s).1 k d) p)
                (omega arith)
              ∙ ap (λ x. compare x p) (loop-first d compare (suc n) p l true s h f)
              ∙ loop-others_gt d compare (suc (suc n)) p l s m l h f (omega arith) (omega arith)
                  (omega arith) (omega arith) (omega arith) (order.same p)
        ])

    -- The old pivot is one place down.
    turned_pivot :
        (s : List A) (l n : ℕ)
        → l + suc (suc n) ≤ length s
        → (partition d compare s l (l + suc (suc n))).0 ≡ l
        → get_or (partition d compare s l (l + suc (suc n))).1 ((l + (l + suc (suc n))) / 2 - 1) d
          ≡ pivot_of s l (suc (suc n))
    turned_pivot s l n h e =
        let q = partition_as_loop s l (suc (suc n)) in
        let m = (l + (l + suc (suc n))) / 2 in
        rw q (
          loop-turns d compare (suc n) (pivot_of s l (suc (suc n))) l true s h (rw q at e) (m - 1)
            (omega arith) (omega arith)
          ∙ ap (λ k. get_or s k d) (omega arith))

    pub partition-again :
        (s : List A) (l n : ℕ)
        → l + suc (suc n) ≤ length s
        → (partition d compare s l (l + suc (suc n))).0 ≡ l
        → l
          < (partition d compare
              (partition d compare s l (l + suc (suc n))).1
              l
              (l + suc (suc n))).0
    partition-again s l n h e =
        let t = (partition d compare s l (l + suc (suc n))).1 in
        let q = pivot_of t l (suc (suc n)) in
        rw (partition_as_loop t l (suc (suc n))) (
          loop-above_start d compare (suc (suc n)) q l true t ((l + (l + suc (suc n))) / 2 - 1)
            (omega (arith, (partition-IsSplit s l (suc (suc n)) h).moves.size)) (omega arith)
            (omega arith)
            (ap (λ x. compare x q) (turned_pivot s l n h e)
              ∙ order.flip q _ (after_turn s l n h e)))
