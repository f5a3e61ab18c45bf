-- ===== src/Grades/Sort.antt =====
-- `grades/src/sort.c`: the sort of a table of students. A student is an element of `A`, and `d` stands
-- for what lies outside the table. `compare` is the sign of the comparison's int.
pub mod Table
pub mod Loop
pub mod Progress
pub mod Turn
pub mod Rounds
pub mod Sorted
pub mod Order
use cse.Base.{
  ℕ, zero, suc, ◌+◌, ◌-◌, ◌/◌, Bool, true, false, not, Option, none, some, List, [], ◌∷◌, ◌==◌,
  if◌then◌else◌, set, get_or, length, reverse, ◌*◌,
}
use Prim.Native.Nat.{Ordering, compare as nat_compare}

-- The test `c > 0`, where an equal pair counts as `alt`; `alt` is true for 1 and false for -1.
unfoldable pub goes_high : Ordering → Bool → Bool
goes_high Ordering.lt alt = false
goes_high Ordering.eq alt = alt
goes_high Ordering.gt alt = true

-- `alt = -alt` after an equal pair.
unfoldable pub next_alt : Ordering → Bool → Bool
next_alt Ordering.lt alt = alt
next_alt Ordering.eq alt = not alt
next_alt Ordering.gt alt = alt

module _ {ℓ} {A : Type ℓ} (d : A) where
  -- The exchange of two entries.
  unfoldable pub swap : List A → ℕ → ℕ → List A
  swap stab i j = set (set stab j (get_or stab i d)) i (get_or stab j d)

module _ {ℓ} {A : Type ℓ} (d : A) (compare : A → A → Ordering) where
  -- The loop of `partition` with n = h - l rounds to go.
  unfoldable pub partition_loop : ℕ → A → ℕ → Bool → List A → ℕ × List A
  partition_loop zero pivot l alt stab = (l, stab)
  partition_loop (suc n) pivot l alt stab =
      let c = compare (get_or stab l d) pivot in
      let high = partition_loop n pivot l (next_alt c alt) (swap d stab l (l + n)) in
      let low = partition_loop n pivot (l + 1) (next_alt c alt) stab in
      if goes_high c alt then high else low

  unfoldable pub partition : List A → ℕ → ℕ → ℕ × List A
  partition stab low high =
      partition_loop (high - low) (get_or stab ((low + high) / 2) d) low true stab

  -- The recursion of `sorttable` with fuel; none where the fuel runs out.
  unfoldable pub sorttable : ℕ → List A → ℕ → ℕ → Option (List A)
  sorttable zero stab low high = none
  sorttable (suc fuel) stab low high =
      let (middle, stab') = partition stab low high in
      let both : Option (List A) = elim (sorttable fuel stab' low middle) [
        | none ↦ none
        | some s ↦ sorttable fuel s middle high
      ] in
      if low == high then some stab else if low + 1 == high then some stab' else both

  -- `sortroster`: the list of a roster goes into a table from its end on, and the sorted table gives
  -- the list. Two calls for each student and one more are enough fuel.
  unfoldable pub sortroster : List A → Option (List A)
  sortroster [] = some []
  sortroster (x ∷ xs) = let n = length (x ∷ xs) in sorttable (2 * n + 1) (reverse (x ∷ xs)) 0 n

-- `if(c != 0) return(c);` before the next test.
abbrev pub or_next : Ordering → Ordering → Ordering
or_next Ordering.eq r = r
or_next Ordering.lt r = Ordering.lt
or_next Ordering.gt r = Ordering.gt

-- `strcmp`
unfoldable pub strcmp : List ℕ → List ℕ → Ordering
strcmp [] [] = Ordering.eq
strcmp [] (d ∷ t) = Ordering.lt
strcmp (c ∷ s) [] = Ordering.gt
strcmp (c ∷ s) (d ∷ t) = or_next (nat_compare c d) (strcmp s t)

-- What the comparisons read of a `Student`.
pub record Student : Type 0 where
  pub surname : List ℕ
  pub name : List ℕ
  pub id : List ℕ

unfoldable pub comparename : Student → Student → Ordering
comparename s1 s2 = or_next (strcmp s1.surname s2.surname) (strcmp s1.name s2.name)

unfoldable pub compareid : Student → Student → Ordering
compareid s1 s2 = strcmp s1.id s2.id
