-- ===== src/Spooler/Search/Fuel.antt =====
-- The search ends, and visits each type once.
use cse.Base.{
  ℕ, zero, suc, ◌+◌, ◌<◌, ◌≤◌, ◌≡◌, ◌≢◌, ◌⊎◌, refl, sym, ap, ◌∙◌, true, Option, none, some, List,
  [], ◌∷◌, ◌==◌, if◌then◌else◌, get_elem?, set, length, arith, Bool-cases, inl, inr, length-set,
}
use mathlib.Core.Path.{subst}
use cse.Spooler.Printers.{same}
use cse.Spooler.Types.{Conv, Node, search_conv, reset_visited}
use cse.Spooler.Search.{
  Search, Run, done, crash, and_then, has_entry, search_from, visit, look_each, look_node, look_at,
  look,
}

-- The types that are not visited.
abbrev pub unvisited : List Node → ℕ
unvisited [] = 0
unvisited (n ∷ ns) = (if n.visited == 0 then 1 else 0) + unvisited ns

visited_of : Option Node → ℕ
visited_of none = 0
visited_of (some n) = n.visited

none-ne_some : (n : Node) → none ≢ some n
none-ne_some n h = subst IsSome (sym h) tt
  where
    IsSome : Option Node → Type 0
    IsSome none = ⊥
    IsSome (some n) = Unit

unvisited-set :
    (ns : List Node) (i : ℕ) (n : Node)
    → get_elem? ns i ≡ some n
    → (n.visited == 0) ≡ true
    → unvisited (set ns i (record n { visited = 1 })) + 1 ≡ unvisited ns
unfolding visited_of
unvisited-set [] i n h e = absurd (none-ne_some n h)
unvisited-set (x ∷ ns) zero n h e = rw (ap (λ k. k == 0) (ap visited_of h) ∙ e) (omega arith)
unvisited-set (x ∷ ns) (suc i) n h e = omega (arith, unvisited-set ns i n h e)

-- A call that ends: each push is a visit.
pub record Ran (st : Search) (r : Run Search) : Type 0 where
  pub after : Search
  pub ends : r ≡ done after
  pub visits : length after.queue + unvisited after.nodes ≡ length st.queue + unvisited st.nodes
  pub fewer : unvisited after.nodes ≤ unvisited st.nodes
  pub size : length after.nodes ≡ length st.nodes

-- A call that ends, or that has more types to visit than `queue` has entries left.
abbrev pub Looks : Search → Run Search → Type 0
Looks st r = (r ≡ crash) × (128 < length st.queue + unvisited st.nodes) ⊎ Ran st r

stays : (st : Search) → Looks st (done st)
stays st = inr (record { after = st; ends = refl; visits = refl; fewer = omega arith; size = refl })

unvisited-visit :
    (st : Search) (i : ℕ) (n : Node)
    → get_elem? st.nodes i ≡ some n
    → (n.visited == 0) ≡ true
    → unvisited (visit st i n).nodes + 1 ≡ unvisited st.nodes
unfolding visit
unvisited-visit st i n g e = unvisited-set st.nodes i n g e

-- A call after a visit.
after_visit :
    (i : ℕ) (n : Node) (st : Search)
    → get_elem? st.nodes i ≡ some n
    → (n.visited == 0) ≡ true
    → (r : Run Search) → Looks (visit st i n) r
    → Looks st r
unfolding visit
after_visit i n st g e r (inl o) = inl (o.0, omega (arith, o.1, unvisited-visit st i n g e))
after_visit i n st g e r (inr a) = inr (record {
  after = a.after;
  ends = a.ends;
  visits = omega (arith, a.visits, unvisited-visit st i n g e);
  fewer = omega (arith, a.fewer, unvisited-visit st i n g e);
  size = a.size ∙ length-set st.nodes i (record n { visited = 1 });
})

-- A call after a call that ends.
and_then-Looks :
    (st : Search) (r : Run Search) (f : Search → Run Search) (a : Ran st r)
    → Looks a.after (f a.after)
    → Looks st (and_then r f)
and_then-Looks st r f a (inl o) = inl (rw a.ends o.0, omega (arith, o.1, a.visits))
and_then-Looks st r f a (inr b) = inr (record {
  after = b.after;
  ends = rw a.ends b.ends;
  visits = b.visits ∙ a.visits;
  fewer = omega (arith, a.fewer, b.fewer);
  size = b.size ∙ a.size;
})

look_each-Looks :
    (again : Search → Option ℕ → Run Search) (fuel : ℕ)
    → ((st : Search) (p : Option ℕ) → unvisited st.nodes < fuel → Looks st (again st p))
    → (i : ℕ) (cs : List Conv) (st : Search) → unvisited st.nodes < fuel
    → Looks st (look_each again i cs st)
unfolding look_each
look_each-Looks again fuel f i [] st h = stays st
look_each-Looks again fuel f i (c ∷ cs) st h = elim (f st (search_from i st.nodes c.dest) h) [
  | inl o ↦ inl (rw o.0 refl, o.1)
  | inr a ↦
      and_then-Looks st _ (look_each again i cs) a
        (look_each-Looks again fuel f i cs a.after (omega (arith, a.fewer)))
]

look_node-Looks :
    (again : Search → Option ℕ → Run Search) (fuel : ℕ)
    → ((st : Search) (p : Option ℕ) → unvisited st.nodes < fuel → Looks st (again st p))
    → (i : ℕ) (n : Node) (dest : List ℕ) (st : Search) → get_elem? st.nodes i ≡ some n
    → (n.visited == 0) ≡ true
    → unvisited st.nodes < suc fuel
    → Looks st (look_node again i n dest st)
unfolding look_node
look_node-Looks again fuel f i n dest st g e h = elim (Bool-cases (has_entry st.queue)) [
  | inr o ↦ inl (rw o refl, ground (arith, o, unvisited-visit st i n g e))
  | inl o ↦ elim (Bool-cases (same n.data_of dest)) [
    | inl a ↦ rw (o, a) (after_visit i n st g e _ (stays (visit st i n)))
    | inr a ↦ rw (o, a) (after_visit i n st g e _ (by_conv (search_conv n.conv dest)))
  ]
]
  where
    left : unvisited (visit st i n).nodes < fuel
    left = omega (arith, unvisited-visit st i n g e)

    by_conv :
        (o : Option Conv)
        → Looks (visit st i n) (elim o [
          | none ↦ look_each again i n.conv (visit st i n)
          | some c ↦ again (visit st i n) (search_from 0 (visit st i n).nodes dest)
        ])
    by_conv none = look_each-Looks again fuel f i n.conv (visit st i n) left
    by_conv (some c) = f (visit st i n) (search_from 0 (visit st i n).nodes dest) left

look_at-Looks :
    (again : Search → Option ℕ → Run Search) (fuel : ℕ)
    → ((st : Search) (p : Option ℕ) → unvisited st.nodes < fuel → Looks st (again st p))
    → (dest : List ℕ) (st : Search) (i : ℕ) (o : Option Node) → get_elem? st.nodes i ≡ o
    → unvisited st.nodes < suc fuel
    → Looks st (look_at again dest st i o)
unfolding look_at
look_at-Looks again fuel f dest st i none g h = stays st
look_at-Looks again fuel f dest st i (some n) g h = elim (Bool-cases (n.visited == 0)) [
  | inl e ↦ rw e (look_node-Looks again fuel f i n dest st g e h)
  | inr e ↦ rw e (stays st)
]

pub look-Looks :
    (fuel : ℕ) (dest : List ℕ) (st : Search) (p : Option ℕ)
    → unvisited st.nodes < fuel
    → Looks st (look fuel dest st p)
unfolding look
look-Looks zero dest st p h = absurd (omega arith)
look-Looks (suc fuel) dest st none h = stays st
look-Looks (suc fuel) dest st (some i) h =
    look_at-Looks (look fuel dest) fuel (look-Looks fuel dest) dest st i (get_elem? st.nodes i) refl
      h

pub unvisited-reset_visited : (ns : List Node) → unvisited (reset_visited ns) ≡ length ns
unfolding reset_visited
unvisited-reset_visited [] = refl
unvisited-reset_visited (n ∷ ns) = omega (arith, unvisited-reset_visited ns)

-- From a reset list of at most 128 types and an empty queue, look ends with fuel for one call
-- more than there are types, without a write past queue, which then has at most one entry for
-- each type.
pub look-reset_visited :
    (dest : List ℕ) (st : Search) (p : Option ℕ)
    → st.queue ≡ []
    → length st.nodes ≤ 128
    → (after : Search) × (look
          (suc (length st.nodes))
          dest
          (record st { nodes = reset_visited st.nodes })
          p
        ≡ done after)
      × (length after.queue ≤ length st.nodes)
look-reset_visited dest st p h l =
    elim (look-Looks (suc (length st.nodes)) dest (record st { nodes = reset_visited st.nodes }) p
      (omega (arith, unvisited-reset_visited st.nodes))) [
        | inl o ↦ absurd (omega (arith, o.1, ap length h, unvisited-reset_visited st.nodes))
        | inr a ↦ (
          a.after,
          a.ends,
          omega (arith, a.visits, ap length h, unvisited-reset_visited st.nodes),
        )
      ]
