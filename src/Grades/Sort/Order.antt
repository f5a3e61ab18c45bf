-- ===== src/Grades/Sort/Order.antt =====
-- `comparename` and `compareid` are orders.
use cse.Base.{ℕ, ◌≡◌, ◌≢◌, refl, List, [], ◌∷◌, inl, inr, ◌⊎◌, arith}
use Prim.Native.Nat.{Ordering, compare as nat_compare}
use cse.Grades.Sort.{or_next, strcmp, comparename, compareid}
use cse.Grades.Sort.Rounds.{IsOrder}

or_next-ne_gt :
    (c r : Ordering)
    → or_next c r ≢ Ordering.gt
    → (c ≡ Ordering.lt) ⊎ ((c ≡ Ordering.eq) × (r ≢ Ordering.gt))
or_next-ne_gt Ordering.lt r h = inl refl
or_next-ne_gt Ordering.eq r h = inr (refl, h)
or_next-ne_gt Ordering.gt r h = absurd (h refl)

or_next-gt :
    (c r : Ordering)
    → or_next c r ≡ Ordering.gt
    → (c ≡ Ordering.gt) ⊎ ((c ≡ Ordering.eq) × (r ≡ Ordering.gt))
or_next-gt Ordering.lt r h = ground arith
or_next-gt Ordering.eq r h = inr (refl, h)
or_next-gt Ordering.gt r h = inl refl

or_next-lt :
    (c r : Ordering)
    → or_next c r ≡ Ordering.lt
    → (c ≡ Ordering.lt) ⊎ ((c ≡ Ordering.eq) × (r ≡ Ordering.lt))
or_next-lt Ordering.gt r h = ground arith
or_next-lt Ordering.eq r h = inr (refl, h)
or_next-lt Ordering.lt r h = inl refl

nat_compare-IsOrder : IsOrder nat_compare
nat_compare-IsOrder = record {
  same = λ x. ground arith;
  flip = λ x y h. ground arith;
  back = λ x y h. ground arith;
  trans = λ x y z h g e. ground arith;
}

-- An outcome that is not `lt` only if something false holds.
by_lt : (c : Ordering) → ((c ≢ Ordering.lt) → ⊥) → c ≡ Ordering.lt
by_lt Ordering.lt h = refl
by_lt Ordering.eq h = absurd (h (λ e. ground arith))
by_lt Ordering.gt h = absurd (h (λ e. ground arith))

by_eq : (c : Ordering) → c ≢ Ordering.lt → c ≢ Ordering.gt → c ≡ Ordering.eq
by_eq Ordering.lt h g = absurd (h refl)
by_eq Ordering.eq h g = refl
by_eq Ordering.gt h g = absurd (g refl)

eq-ne_gt : (c : Ordering) → c ≡ Ordering.eq → c ≢ Ordering.gt
eq-ne_gt Ordering.lt h e = ground arith
eq-ne_gt Ordering.eq h e = ground arith
eq-ne_gt Ordering.gt h e = ground arith

eq-ne_lt : (c : Ordering) → c ≡ Ordering.eq → c ≢ Ordering.lt
eq-ne_lt Ordering.lt h e = ground arith
eq-ne_lt Ordering.eq h e = ground arith
eq-ne_lt Ordering.gt h e = ground arith

lt-ne_gt : (c : Ordering) → c ≡ Ordering.lt → c ≢ Ordering.gt
lt-ne_gt Ordering.lt h e = ground arith
lt-ne_gt Ordering.eq h e = ground arith
lt-ne_gt Ordering.gt h e = ground arith

module _ {ℓ} {A : Type ℓ} (f : A → A → Ordering) (o : IsOrder f) where
  lt_le : (x y z : A) → f x y ≡ Ordering.lt → f y z ≢ Ordering.gt → f x z ≡ Ordering.lt
  lt_le x y z h g = by_lt _ (λ n. o.trans y z x g (λ e. n (o.flip z x e)) (o.back x y h))

  le_lt : (x y z : A) → f x y ≢ Ordering.gt → f y z ≡ Ordering.lt → f x z ≡ Ordering.lt
  le_lt x y z h g = by_lt _ (λ n. o.trans z x y (λ e. n (o.flip z x e)) h (o.back y z g))

  -- Equal is symmetric and transitive.
  eq_sym : (x y : A) → f x y ≡ Ordering.eq → f y x ≡ Ordering.eq
  eq_sym x y h = by_eq _ (λ e. eq-ne_gt _ h (o.back y x e)) (λ e. eq-ne_lt _ h (o.flip y x e))

  eq_trans : (x y z : A) → f x y ≡ Ordering.eq → f y z ≡ Ordering.eq → f x z ≡ Ordering.eq
  eq_trans x y z h g =
      by_eq _
        (λ e. o.trans z y x (eq-ne_gt _ (eq_sym y z g)) (eq-ne_gt _ (eq_sym x y h)) (o.back x z e))
        (o.trans x y z (eq-ne_gt _ h) (eq-ne_gt _ g))

  -- The step of transitivity: a first test f and the rest of the comparison.
  or_next_trans :
      (x y z : A) (p q r : Ordering)
      → or_next (f x y) p ≢ Ordering.gt
      → or_next (f y z) q ≢ Ordering.gt
      → (p ≢ Ordering.gt → q ≢ Ordering.gt → r ≢ Ordering.gt)
      → or_next (f x z) r ≢ Ordering.gt
  or_next_trans x y z p q r h g t e = elim (or_next-ne_gt (f x y) p h) [
    | inl a ↦ elim (or_next-ne_gt (f y z) q g) [
      | inl b ↦ low (lt_le x y z a (lt-ne_gt _ b))
      | inr b ↦ low (lt_le x y z a (eq-ne_gt _ b.0))
    ]
    | inr a ↦ elim (or_next-ne_gt (f y z) q g) [
      | inl b ↦ low (le_lt x y z (eq-ne_gt _ a.0) b)
      | inr b ↦ t a.1 b.1 (rw (eq_trans x y z a.0 b.0) at e)
    ]
  ]
    where
      low : f x z ≡ Ordering.lt → ⊥
      low c = lt-ne_gt _ refl (rw c at e)

  or_next-flip :
      (x y : A) (p q : Ordering)
      → or_next (f x y) p ≡ Ordering.gt
      → (p ≡ Ordering.gt → q ≡ Ordering.lt)
      → or_next (f y x) q ≡ Ordering.lt
  or_next-flip x y p q h t = elim (or_next-gt (f x y) p h) [
    | inl a ↦ rw (o.flip x y a) refl
    | inr a ↦ rw (eq_sym x y a.0) (t a.1)
  ]

  or_next-back :
      (x y : A) (p q : Ordering)
      → or_next (f x y) p ≡ Ordering.lt
      → (p ≡ Ordering.lt → q ≡ Ordering.gt)
      → or_next (f y x) q ≡ Ordering.gt
  or_next-back x y p q h t = elim (or_next-lt (f x y) p h) [
    | inl a ↦ rw (o.back x y a) refl
    | inr a ↦ rw (eq_sym x y a.0) (t a.1)
  ]

strcmp-same : (s : List ℕ) → strcmp s s ≡ Ordering.eq
unfolding strcmp
strcmp-same [] = refl
strcmp-same (x ∷ s) = rw (nat_compare-IsOrder.same x) (strcmp-same s)

strcmp-flip : (s t : List ℕ) → strcmp s t ≡ Ordering.gt → strcmp t s ≡ Ordering.lt
unfolding strcmp
strcmp-flip [] [] h = ground arith
strcmp-flip [] (y ∷ t) h = ground arith
strcmp-flip (x ∷ s) [] h = refl
strcmp-flip (x ∷ s) (y ∷ t) h =
    or_next-flip nat_compare nat_compare-IsOrder x y (strcmp s t) (strcmp t s) h (strcmp-flip s t)

strcmp-back : (s t : List ℕ) → strcmp s t ≡ Ordering.lt → strcmp t s ≡ Ordering.gt
unfolding strcmp
strcmp-back [] [] h = ground arith
strcmp-back [] (y ∷ t) h = refl
strcmp-back (x ∷ s) [] h = ground arith
strcmp-back (x ∷ s) (y ∷ t) h =
    or_next-back nat_compare nat_compare-IsOrder x y (strcmp s t) (strcmp t s) h (strcmp-back s t)

strcmp_trans :
    (s t u : List ℕ)
    → strcmp s t ≢ Ordering.gt
    → strcmp t u ≢ Ordering.gt
    → strcmp s u ≢ Ordering.gt
unfolding strcmp
strcmp_trans [] t [] h g = eq-ne_gt _ refl
strcmp_trans [] t (z ∷ u) h g = lt-ne_gt _ refl
strcmp_trans (x ∷ s) [] u h g = absurd (h refl)
strcmp_trans (x ∷ s) (y ∷ t) [] h g = absurd (g refl)
strcmp_trans (x ∷ s) (y ∷ t) (z ∷ u) h g =
    or_next_trans nat_compare nat_compare-IsOrder x y z (strcmp s t) (strcmp t u) (strcmp s u) h g
      (strcmp_trans s t u)

strcmp-IsOrder : IsOrder strcmp
strcmp-IsOrder = record {
  same = strcmp-same;
  flip = strcmp-flip;
  back = strcmp-back;
  trans = strcmp_trans;
}

pub compareid-IsOrder : IsOrder compareid
unfolding compareid
compareid-IsOrder = record {
  same = λ x. strcmp-same x.id;
  flip = λ x y. strcmp-flip x.id y.id;
  back = λ x y. strcmp-back x.id y.id;
  trans = λ x y z. strcmp_trans x.id y.id z.id;
}

pub comparename-IsOrder : IsOrder comparename
unfolding comparename
comparename-IsOrder = record {
  same = λ x. rw (strcmp-same x.surname) (strcmp-same x.name);
  flip = λ x y h.
      or_next-flip strcmp strcmp-IsOrder x.surname y.surname _ _ h (strcmp-flip x.name y.name);
  back = λ x y h.
      or_next-back strcmp strcmp-IsOrder x.surname y.surname _ _ h (strcmp-back x.name y.name);
  trans = λ x y z h g.
      or_next_trans strcmp strcmp-IsOrder x.surname y.surname z.surname _ _ _ h g
        (strcmp_trans x.name y.name z.name);
}
