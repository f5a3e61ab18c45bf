-- ===== src/Grades/Sort/Loop.antt =====
-- What the loop of `partition` leaves.
use cse.Base.{
  ℕ, zero, suc, ◌+◌, ◌<◌, ◌≤◌, ◌≡◌, ◌≢◌, refl, sym, ap, ◌∙◌, Bool, true, false, List, get_or,
  length, Bool-cases, inl, inr, ◌⊎◌, arith,
}
use Prim.Native.Nat.{Ordering}
use mathlib.Core.Path.{subst}
use native.Mathlib.Decide.{ℕ_discrete, dec_lt}
use cse.Grades.Sort.{goes_high, next_alt, swap, partition_loop}
use cse.Grades.Sort.Table.{total, length-swap, swap-first, swap-second, swap-other, total-swap}

-- An entry that goes high is not below the pivot, and one that goes low is not above it.
pub goes_high-ne_lt : (c : Ordering) (alt : Bool) → goes_high c alt ≡ true → c ≢ Ordering.lt
unfolding goes_high
goes_high-ne_lt Ordering.lt alt h e = ground arith
goes_high-ne_lt Ordering.eq alt h e = ground arith
goes_high-ne_lt Ordering.gt alt h e = ground arith

pub goes_high-ne_gt : (c : Ordering) (alt : Bool) → goes_high c alt ≡ false → c ≢ Ordering.gt
unfolding goes_high
goes_high-ne_gt Ordering.lt alt h e = ground arith
goes_high-ne_gt Ordering.eq alt h e = ground arith
goes_high-ne_gt Ordering.gt alt h e = ground arith

module _ {ℓ} {A : Type ℓ} (d : A) (compare : A → A → Ordering) where
  -- A table s' made from s by exchanges among the n entries from l on.
  pub record IsRearranged (n l : ℕ) (s s' : List A) : Type (ℓ ⊔ 1) where
    pub size : length s' ≡ length s
    pub weight : (w : A → ℕ) → total w s' ≡ total w s
    pub outside : (k : ℕ) → (k < l) ⊎ (l + n ≤ k) → get_or s' k d ≡ get_or s k d
    pub keeps :
        (P : A → Type 0)
        → ((k : ℕ) → l ≤ k → k < l + n → P (get_or s k d))
        → (k : ℕ) → l ≤ k
        → k < l + n
        → P (get_or s' k d)

  pub IsRearranged-refl : (n l : ℕ) (s : List A) → IsRearranged n l s s
  IsRearranged-refl n l s = record {
    size = refl;
    weight = λ w. refl;
    outside = λ k h. refl;
    keeps = λ P h. h;
  }

  pub IsRearranged-trans :
      (n l : ℕ) (s t u : List A)
      → IsRearranged n l s t
      → IsRearranged n l t u
      → IsRearranged n l s u
  IsRearranged-trans n l s t u a b = record {
    size = b.size ∙ a.size;
    weight = λ w. b.weight w ∙ a.weight w;
    outside = λ k h. b.outside k h ∙ a.outside k h;
    keeps = λ P h. b.keeps P (a.keeps P h);
  }

  -- Exchanges among fewer entries.
  pub IsRearranged-widen :
      (m k n l : ℕ) (s t : List A)
      → l ≤ k
      → k + m ≤ l + n
      → IsRearranged m k s t
      → IsRearranged n l s t
  IsRearranged-widen m k n l s t h g a = record {
    size = a.size;
    weight = a.weight;
    outside = λ i p. a.outside i (ground arith);
    keeps = λ P q i p r. inner P q i p r (dec_lt i k) (dec_lt i (k + m));
  }
    where
      inner :
          (P : A → Type 0)
          → ((i : ℕ) → l ≤ i → i < l + n → P (get_or s i d))
          → (i : ℕ) → l ≤ i
          → i < l + n
          → Dec (i < k)
          → Dec (i < k + m)
          → P (get_or t i d)
      inner P q i p r (yes below) e = subst P (sym (a.outside i (inl below))) (q i p r)
      inner P q i p r (no f) (no above) = subst P (sym (a.outside i (inr (omega arith)))) (q i p r)
      inner P q i p r (no f) (yes e) =
          a.keeps P (λ j u v. q j (omega arith) (omega arith)) i (omega arith) e

  pub swap-IsRearranged :
      (n l : ℕ) (s : List A) → l + suc n ≤ length s → IsRearranged (suc n) l s (swap d s l (l + n))
  swap-IsRearranged n l s h = record {
    size = length-swap d s l (l + n);
    weight = λ w. total-swap d w s l (l + n) (omega arith) (omega arith);
    outside = λ k g. swap-other d s l (l + n) k (ground arith) (ground arith);
    keeps = λ P g k p q. moved P g k p q (ℕ_discrete l k) (ℕ_discrete (l + n) k);
  }
    where
      moved :
          (P : A → Type 0)
          → ((k : ℕ) → l ≤ k → k < l + suc n → P (get_or s k d))
          → (k : ℕ) → l ≤ k
          → k < l + suc n
          → Dec (l ≡ k)
          → Dec (l + n ≡ k)
          → P (get_or (swap d s l (l + n)) k d)
      moved P g k p q (yes e) f = subst P (ap (λ j. get_or (swap d s l (l + n)) j d) e) (
          subst P (sym (swap-first d s l (l + n) (omega arith)))
            (g (l + n) (omega arith) (omega arith)))
      moved P g k p q (no e) (yes f) = subst P (ap (λ j. get_or (swap d s l (l + n)) j d) f) (
          subst P (sym (swap-second d s l (l + n) (omega arith) (omega arith)))
            (g l (omega arith) (omega arith)))
      moved P g k p q (no e) (no f) = subst P (sym (swap-other d s l (l + n) k e f)) (g k p q)

  -- The loop with n rounds left from l on: where it stops, what it exchanged, and how the entries
  -- stand to the pivot.
  pub record IsSplit (n l : ℕ) (pivot : A) (s : List A) (r : ℕ × List A) : Type (ℓ ⊔ 1) where
    pub least : l ≤ r.0
    pub most : r.0 ≤ l + n
    pub moves : IsRearranged n l s r.1
    pub low : (k : ℕ) → l ≤ k → k < r.0 → compare (get_or r.1 k d) pivot ≢ Ordering.gt
    pub high : (k : ℕ) → r.0 ≤ k → k < l + n → compare (get_or r.1 k d) pivot ≢ Ordering.lt

  -- A round that puts the entry at l on the high end.
  high_round :
      (n : ℕ) (pivot : A) (l : ℕ) (s : List A) (r : ℕ × List A)
      → l + suc n ≤ length s
      → compare (get_or s l d) pivot ≢ Ordering.lt
      → IsSplit n l pivot (swap d s l (l + n)) r
      → IsSplit (suc n) l pivot s r
  high_round n pivot l s r h c a = record {
    least = a.least;
    most = omega (arith, a.most);
    moves = IsRearranged-trans (suc n) l s (swap d s l (l + n)) r.1 (swap-IsRearranged n l s h) (
        IsRearranged-widen n l (suc n) l (swap d s l (l + n)) r.1 (omega arith) (omega arith)
          a.moves);
    low = a.low;
    high = λ k p q. above k p q (ℕ_discrete (l + n) k);
  }
    where
      last : get_or r.1 (l + n) d ≡ get_or s l d
      last =
          a.moves.outside (l + n) (inr (omega arith))
          ∙ swap-second d s l (l + n) (omega arith) (omega arith)

      above :
          (k : ℕ)
          → r.0 ≤ k
          → k < l + suc n
          → Dec (l + n ≡ k)
          → compare (get_or r.1 k d) pivot ≢ Ordering.lt
      above k p q (yes e) =
          subst (λ j. compare (get_or r.1 j d) pivot ≢ Ordering.lt) e
            (subst (λ x. compare x pivot ≢ Ordering.lt) (sym last) c)
      above k p q (no e) = a.high k p (omega arith)

  -- A round that leaves the entry at l on the low end.
  low_round :
      (n : ℕ) (pivot : A) (l : ℕ) (s : List A) (r : ℕ × List A)
      → compare (get_or s l d) pivot ≢ Ordering.gt
      → IsSplit n (l + 1) pivot s r
      → IsSplit (suc n) l pivot s r
  low_round n pivot l s r c a = record {
    least = omega (arith, a.least);
    most = omega (arith, a.most);
    moves = IsRearranged-widen n (l + 1) (suc n) l s r.1 (omega arith) (omega arith) a.moves;
    low = λ k p q. below k p q (ℕ_discrete l k);
    high = λ k p q. a.high k p (omega arith);
  }
    where
      below : (k : ℕ) → l ≤ k → k < r.0 → Dec (l ≡ k) → compare (get_or r.1 k d) pivot ≢ Ordering.gt
      below k p q (yes e) =
          subst (λ j. compare (get_or r.1 j d) pivot ≢ Ordering.gt) e
            (subst (λ x. compare x pivot ≢ Ordering.gt)
              (sym (a.moves.outside l (inl (omega arith)))) c)
      below k p q (no e) = a.low k (omega arith) q

  pub partition_loop-IsSplit :
      (n : ℕ) (pivot : A) (l : ℕ) (alt : Bool) (s : List A)
      → l + n ≤ length s
      → IsSplit n l pivot s (partition_loop d compare n pivot l alt s)
  unfolding partition_loop
  partition_loop-IsSplit zero pivot l alt s h = record {
    least = omega arith;
    most = omega arith;
    moves = IsRearranged-refl zero l s;
    low = λ k p q. absurd (omega arith);
    high = λ k p q. absurd (omega arith);
  }
  partition_loop-IsSplit (suc n) pivot l alt s h =
      elim (Bool-cases (goes_high (compare (get_or s l d) pivot) alt)) [
        | inl e ↦ rw e (
            high_round n pivot l s _ h (goes_high-ne_lt _ alt e) (
              partition_loop-IsSplit n pivot l (next_alt (compare (get_or s l d) pivot) alt)
                (swap d s l (l + n)) (omega (arith, length-swap d s l (l + n)))))
        | inr e ↦ rw e (
            low_round n pivot l s _ (goes_high-ne_gt _ alt e) (
              partition_loop-IsSplit n pivot (l + 1) (next_alt (compare (get_or s l d) pivot) alt) s
                (omega arith)))
      ]
