-- ===== src/Grades/Sort/Sorted.antt =====
-- The table that `sorttable` leaves.
use cse.Base.{
  ℕ, zero, suc, ◌+◌, ◌-◌, ◌*◌, ◌<◌, ◌≤◌, ◌≡◌, ◌≢◌, refl, sym, ap, ◌∙◌, List, [], ◌∷◌, get_or,
  length, reverse, inl, inr, Option, some, arith,
}
use Prim.Native.Nat.{Ordering}
use cse.Grades.Sort.Table.{total, total-reverse, length-reverse}
use native.Mathlib.Decide.{dec_lt}
use cse.Grades.Sort.{partition, sorttable, sortroster}
use cse.Grades.Sort.Loop.{
  IsRearranged, IsRearranged-refl, IsRearranged-trans, IsRearranged-widen, IsSplit,
}
use cse.Grades.Sort.Rounds.{
  IsOrder, pivot_of, partition-IsSplit, partition-below_end, partition-again,
}

module _ {ℓ} {A : Type ℓ} (d : A) (compare : A → A → Ordering) where
  -- No entry of the n from l on is above a later one.
  abbrev pub IsOrdered : ℕ → ℕ → List A → Type 0
  IsOrdered n l s =
      (i j : ℕ) → l ≤ i → i < j → j < l + n → compare (get_or s i d) (get_or s j d) ≢ Ordering.gt

  -- The outcome of a sort of the n entries from l on.
  pub record Sorts (n l : ℕ) (s : List A) (r : Option (List A)) : Type (ℓ ⊔ 1) where
    pub table : List A
    pub found : r ≡ some table
    pub moves : IsRearranged d compare n l s table
    pub ordered : IsOrdered n l table

  sorttable-none :
      (fuel : ℕ) (s : List A) (l : ℕ) → sorttable d compare (suc fuel) s l (l + 0) ≡ some s
  unfolding sorttable
  sorttable-none fuel s l = ground arith

  sorttable-one :
      (fuel : ℕ) (s : List A) (l : ℕ)
      → sorttable d compare (suc fuel) s l (l + 1) ≡ some (partition d compare s l (l + 1)).1
  unfolding sorttable
  sorttable-one fuel s l = ground arith

  sorttable-more :
      (fuel : ℕ) (s t : List A) (l n : ℕ)
      → sorttable d compare fuel
          (partition d compare s l (l + suc (suc n))).1
          l
          (partition d compare s l (l + suc (suc n))).0
        ≡ some t
      → sorttable d compare (suc fuel) s l (l + suc (suc n))
        ≡ sorttable d compare fuel t (partition d compare s l (l + suc (suc n))).0 (l + suc (suc n))
  unfolding sorttable
  sorttable-more fuel s t l n h = ground (arith, h)

  module _ (order : IsOrder compare) where
    -- Two ordered parts, the first not above the pivot and the second not below it, are ordered.
    join :
        (k n l : ℕ) (p : A) (a b c : List A)
        → ((i : ℕ) → l ≤ i → i < l + k → compare (get_or a i d) p ≢ Ordering.gt)
        → ((i : ℕ) → l + k ≤ i → i < l + k + n → compare (get_or a i d) p ≢ Ordering.lt)
        → IsRearranged d compare k l a b
        → IsOrdered k l b
        → IsRearranged d compare n (l + k) b c
        → IsOrdered n (l + k) c
        → IsOrdered (k + n) l c
    join k n l p a b c x x' y f z g i j u v w = elim (dec_lt j (l + k)) [
      | yes e ↦ rw (z.outside i (inl (omega arith))) (rw (z.outside j (inl e)) (f i j u v e))
      | no e ↦ elim (dec_lt i (l + k)) [
        | yes h ↦ order.trans _ p _ (below i u h) (above j (omega arith) (omega arith))
        | no h ↦ g i j (omega arith) v (omega arith)
      ]
    ]
      where
        below : (i : ℕ) → l ≤ i → i < l + k → compare (get_or c i d) p ≢ Ordering.gt
        below i u h = rw (z.outside i (inl h)) (y.keeps (λ t. compare t p ≢ Ordering.gt) x i u h)

        above : (j : ℕ) → l + k ≤ j → j < l + k + n → compare p (get_or c j d) ≢ Ordering.gt
        above =
            z.keeps (λ t. compare p t ≢ Ordering.gt)
              (λ j u e' e.
                x' j u e' (ap (λ t. compare t p) (sym (y.outside j (inr u))) ∙ order.flip p _ e))

    -- A call whose partition leaves both parts smaller, from the calls on the parts.
    sorttable-parts :
        (fuel : ℕ) (s : List A) (l n : ℕ)
        → l + suc (suc n) ≤ length s
        → 2 * suc (suc n) ≤ suc fuel
        → l < (partition d compare s l (l + suc (suc n))).0
        → ((s' : List A) (l' n' : ℕ)
            → l' + n' ≤ length s'
            → 2 * n' + 1 ≤ fuel
            → Sorts n' l' s' (sorttable d compare fuel s' l' (l' + n')))
        → Sorts (suc (suc n)) l s (sorttable d compare (suc fuel) s l (l + suc (suc n)))
    sorttable-parts fuel s l n h g e f =
        at_middle (r.0 - l) (l + suc (suc n) - r.0) (omega arith) (omega (arith, split.most))
      where
        r : ℕ × List A
        r = partition d compare s l (l + suc (suc n))

        split : IsSplit d compare (suc (suc n)) l (pivot_of d compare s l (suc (suc n))) s r
        split = partition-IsSplit d compare s l (suc (suc n)) h

        below_end : r.0 < l + suc (suc n)
        below_end = partition-below_end d compare order s l (suc n) h

        at_middle :
            (k n' : ℕ)
            → r.0 ≡ l + k
            → l + k + n' ≡ l + suc (suc n)
            → Sorts (suc (suc n)) l s (sorttable d compare (suc fuel) s l (l + suc (suc n)))
        at_middle k n' p q =
            let low = f r.1 l k (omega (arith, split.moves.size)) (omega (arith, below_end)) in
            let high =
              f low.table (l + k) n' (omega (arith, split.moves.size, low.moves.size))
                (omega (arith, e)) in
            record {
              table = high.table;
              found =
                  sorttable-more fuel s low.table l n
                    (ap (λ m. sorttable d compare fuel r.1 l m) p ∙ low.found)
                  ∙ ap (λ m. sorttable d compare fuel low.table m (l + suc (suc n))) p
                  ∙ ap (λ m. sorttable d compare fuel low.table (l + k) m) (sym q)
                  ∙ high.found;
              moves = IsRearranged-trans d compare (suc (suc n)) l s r.1 high.table split.moves (
                  IsRearranged-trans d compare (suc (suc n)) l r.1 low.table high.table
                    (IsRearranged-widen d compare k l (suc (suc n)) l r.1 low.table (omega arith)
                      (omega arith) low.moves)
                    (IsRearranged-widen d compare n' (l + k) (suc (suc n)) l low.table high.table
                      (omega arith) (omega arith) high.moves));
              ordered = λ i j u v w.
                  join k n' l (pivot_of d compare s l (suc (suc n))) r.1 low.table high.table
                    (λ a b c. split.low a b (omega arith))
                    (λ a b c. split.high a (omega arith) (omega arith)) low.moves low.ordered
                    high.moves high.ordered i j u v (omega arith);
            }

    -- A call whose partition puts no entry low, from the second call on the same range.
    sorttable-again :
        (fuel : ℕ) (s : List A) (l n : ℕ)
        → l + suc (suc n) ≤ length s
        → (partition d compare s l (l + suc (suc n))).0 ≡ l
        → Sorts (suc (suc n)) l (partition d compare s l (l + suc (suc n))).1 (
            sorttable d compare
              (suc fuel)
              (partition d compare s l (l + suc (suc n))).1
              l
              (l + suc (suc n)))
        → Sorts (suc (suc n)) l s (sorttable d compare (suc (suc fuel)) s l (l + suc (suc n)))
    sorttable-again fuel s l n h e next = record {
      table = next.table;
      found =
          sorttable-more (suc fuel) s r.1 l n
            (ap (λ m. sorttable d compare (suc fuel) r.1 l m) stays ∙ sorttable-none fuel r.1 l)
          ∙ ap (λ m. sorttable d compare (suc fuel) r.1 m (l + suc (suc n))) e
          ∙ next.found;
      moves =
          IsRearranged-trans d compare (suc (suc n)) l s r.1 next.table
            (partition-IsSplit d compare s l (suc (suc n)) h).moves next.moves;
      ordered = next.ordered;
    }
      where
        r : ℕ × List A
        r = partition d compare s l (l + suc (suc n))

        stays : r.0 ≡ l + 0
        stays = omega (arith, e)

    pub sorttable-Sorts :
        (fuel : ℕ) (s : List A) (l n : ℕ)
        → l + n ≤ length s
        → 2 * n + 1 ≤ fuel
        → Sorts n l s (sorttable d compare fuel s l (l + n))
    sorttable-Sorts zero s l n h g = absurd (omega arith)
    sorttable-Sorts (suc fuel) s l zero h g = record {
      table = s;
      found = sorttable-none fuel s l;
      moves = IsRearranged-refl d compare 0 l s;
      ordered = λ i j u v w. absurd (omega arith);
    }
    sorttable-Sorts (suc fuel) s l (suc zero) h g = record {
      table = (partition d compare s l (l + 1)).1;
      found = sorttable-one fuel s l;
      moves = (partition-IsSplit d compare s l 1 h).moves;
      ordered = λ i j u v w. absurd (omega arith);
    }
    sorttable-Sorts (suc zero) s l (suc (suc n)) h g = absurd (omega arith)
    sorttable-Sorts (suc (suc fuel)) s l (suc (suc n)) h g =
        elim (dec_lt l (partition d compare s l (l + suc (suc n))).0) [
          | yes e ↦
              sorttable-parts (suc fuel) s l n h (omega arith) e
                (λ s' l' n' p q. sorttable-Sorts (suc fuel) s' l' n' p q)
          | no e ↦
              let start : (partition d compare s l (l + suc (suc n))).0 ≡ l =
                omega (arith, e, (partition-IsSplit d compare s l (suc (suc n)) h).least) in
              sorttable-again fuel s l n h start (
                sorttable-parts fuel (partition d compare s l (l + suc (suc n))).1 l n
                  (omega (arith, (partition-IsSplit d compare s l (suc (suc n)) h).moves.size))
                  (omega arith) (partition-again d compare order s l n h start)
                  (λ s' l' n' p q. sorttable-Sorts fuel s' l' n' p q))
        ]

    -- For a comparison that is an order, `sortroster` ends with a list, which holds the students of the
    -- roster, each as often as before, and has none before a student that compares lower.
    pub sortroster-IsOrdered :
        (xs : List A)
        → (ys : List A) × (sortroster d compare xs ≡ some ys)
          × ((w : A → ℕ) → total w ys ≡ total w xs)
          × IsOrdered (length xs) 0 ys
    unfolding sortroster
    sortroster-IsOrdered [] = ([], refl, λ w. refl, λ i j u v w. absurd (omega arith))
    sortroster-IsOrdered (x ∷ xs) =
        let n = length (x ∷ xs) in
        let done =
          sorttable-Sorts (2 * n + 1) (reverse (x ∷ xs)) 0 n
            (omega (arith, length-reverse (x ∷ xs))) (omega arith) in
        (
          done.table,
          ap (λ k. sorttable d compare (2 * n + 1) (reverse (x ∷ xs)) 0 k) (omega arith)
              ∙ done.found,
          λ w. done.moves.weight w ∙ total-reverse w (x ∷ xs),
          done.ordered,
        )
