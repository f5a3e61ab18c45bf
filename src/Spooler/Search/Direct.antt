-- ===== src/Spooler/Search/Direct.antt =====
-- The search where a type converts to another at once.
use cse.Base.{
  ℕ, zero, suc, ◌-◌, ◌<◌, ◌≡◌, ◌≢◌, refl, sym, ap, ap₂, ◌∙◌, Bool, true, false, Option, none, some,
  List, [], ◌∷◌, ◌==◌, if◌then◌else◌, length, arith, Bool-cases, inl, inr, set, get_elem?,
}
use mathlib.Core.Path.{subst}
use mathlib.Core.Option.{map}
use cse.Spooler.Printers.{same}
use cse.Spooler.Types.{Conv, Node, search_list, search_conv, reset_visited}
use cse.Spooler.Types.Graph.{same_refl}
use cse.Spooler.Search.{
  Search, done, has_entry, search_from, visit, pop_to, leads, backtrack, way_back, look, look_at,
  look_node, bfs,
}

same-eq : (s t : List ℕ) → same s t ≡ true → s ≡ t
unfolding same
same-eq [] [] h = refl
same-eq [] (d ∷ t) h = ground arith
same-eq (c ∷ s) [] h = ground arith
same-eq (c ∷ s) (d ∷ t) h = elim (Bool-cases (c == d)) [
  | inl e ↦ ap₂ (λ x xs. x ∷ xs) (ground (arith, e)) (same-eq s t (rw e at h))
  | inr e ↦ absurd (false-ne_true (rw e at h))
]
  where
    false-ne_true : false ≢ true
    false-ne_true h = ground arith

none-ne_some : (n : Node) → none ≢ some n
none-ne_some n h = subst IsSome (sym h) tt
  where
    IsSome : Option Node → Type 0
    IsSome none = ⊥
    IsSome (some n) = Unit

-- A node that `search_list` finds, with its place.
record Placed (ns : List Node) (x : List ℕ) (n : Node) : Type 0 where
  place : ℕ
  from : search_from 0 ns x ≡ some place
  here : get_elem? ns place ≡ some n
  name : n.data_of ≡ x

placed : (ns : List Node) (x : List ℕ) (n : Node) → search_list ns x ≡ some n → Placed ns x n
unfolding search_list search_from
placed [] x n h = absurd (none-ne_some n h)
placed (m ∷ ns) x n h = elim (Bool-cases (same m.data_of x)) [
  | inl e ↦
      let f : some m ≡ some n = rw e at h in
      record {
        place = 0;
        from = rw e refl;
        here = f;
        name = ap (name_or x) (sym f) ∙ same-eq m.data_of x e;
      }
  | inr e ↦
      let p = placed ns x n (rw e at h) in
      record { place = suc p.place; from = rw (e, p.from) refl; here = p.here; name = p.name }
]
  where
    name_or : List ℕ → Option Node → List ℕ
    name_or x none = x
    name_or x (some n) = n.data_of

-- A visit changes nothing for a search of another type, and nothing for what a type leads to.
search_list-set :
    (ns : List Node) (i : ℕ) (n : Node) (x : List ℕ)
    → get_elem? ns i ≡ some n
    → same n.data_of x ≡ false
    → search_list (set ns i (record n { visited = 1 })) x ≡ search_list ns x
unfolding search_list
search_list-set [] i n x h e = refl
search_list-set (m ∷ ns) zero n x h e = rw (e, ap (λ o. same (name_or x o) x) h ∙ e) refl
  where
    name_or : List ℕ → Option Node → List ℕ
    name_or x none = x
    name_or x (some n) = n.data_of
search_list-set (m ∷ ns) (suc i) n x h e =
    ap (λ r. if same m.data_of x then some m else r) (search_list-set ns i n x h e)

node_or : Node → Option Node → Node
node_or m none = m
node_or m (some n) = n

visited-leads :
    (b : Bool) (n : Node) (o : Option Node) (r : List (List ℕ))
    → leads (if b then some (record n { visited = 1 }) else o) r ≡ leads (if b then some n else o) r
unfolding leads
visited-leads false n o r = refl
visited-leads true n o [] = refl
visited-leads true n o (x ∷ xs) = refl

leads-set :
    (ns : List Node) (i : ℕ) (n : Node) (x : List ℕ) (r : List (List ℕ))
    → get_elem? ns i ≡ some n
    → leads (search_list (set ns i (record n { visited = 1 })) x) r ≡ leads (search_list ns x) r
unfolding search_list node_or
leads-set [] i n x r h = refl
leads-set (m ∷ ns) zero n x r h =
    visited-leads (same n.data_of x) n (search_list ns x) r
    ∙ ap (λ k. leads (if same k.data_of x then some k else search_list ns x) r)
        (sym (ap (node_or m) h))
leads-set (m ∷ ns) (suc i) n x r h = elim (Bool-cases (same m.data_of x)) [
  | inl e ↦ rw e refl
  | inr e ↦ rw e (leads-set ns i n x r h)
]

search_list-reset_visited :
    (ns : List Node) (x : List ℕ) (n : Node)
    → search_list ns x ≡ some n
    → search_list (reset_visited ns) x ≡ some (record n { visited = 0 })
unfolding search_list reset_visited
search_list-reset_visited [] x n h = absurd (none-ne_some n h)
search_list-reset_visited (m ∷ ns) x n h = elim (Bool-cases (same m.data_of x)) [
  | inl e ↦ rw e (ap (map {A = Node} {B = Node} (λ k. record k { visited = 0 })) (rw e at h))
  | inr e ↦ rw e (search_list-reset_visited ns x n (rw e at h))
]

-- A call of `look` for the destination, and one for a type that converts to it.
look-hit :
    (fuel : ℕ) (dest : List ℕ) (st : Search) (j : ℕ) (m : Node)
    → get_elem? st.nodes j ≡ some m
    → (m.visited == 0) ≡ true
    → same m.data_of dest ≡ true
    → has_entry st.queue ≡ true
    → look (suc fuel) dest st (some j) ≡ done (visit st j m)
unfolding look look_at look_node
look-hit fuel dest st j m g v e r = rw (g, v, r, e) refl

look-direct :
    (fuel : ℕ) (dest : List ℕ) (st : Search) (i : ℕ) (n : Node) (c : Conv)
    → get_elem? st.nodes i ≡ some n
    → (n.visited == 0) ≡ true
    → same n.data_of dest ≡ false
    → search_conv n.conv dest ≡ some c
    → has_entry st.queue ≡ true
    → look (suc fuel) dest st (some i)
      ≡ look fuel dest (visit st i n) (search_from 0 (visit st i n).nodes dest)
unfolding look look_at look_node
look-direct fuel dest st i n c g v e h r = rw (g, v, r, e, h) refl

visit_twice :
    (ns : List Node) (src dest : List ℕ) (n m : Node) (c : Conv)
    → search_list ns src ≡ some n
    → search_list ns dest ≡ some m
    → (n.visited == 0) ≡ true
    → (m.visited == 0) ≡ true
    → same src dest ≡ false
    → search_conv n.conv dest ≡ some c
    → (fuel : ℕ) (result : List (List ℕ))
    → (after : List Node) × (look
          (suc (suc fuel))
          dest
          (record { nodes = ns; queue = []; result = result })
          (search_from 0 ns src)
        ≡ done (record { nodes = after; queue = dest ∷ src ∷ []; result = result }))
      × ((x : List ℕ) (r : List (List ℕ))
          → leads (search_list after x) r ≡ leads (search_list ns x) r)
unfolding visit
visit_twice ns src dest n m c f g v w e h fuel result =
    let st : Search = record { nodes = ns; queue = []; result = result } in
    let p = placed ns src n f in
    let ns1 = set ns p.place (record n { visited = 1 }) in
    let e1 : same n.data_of dest ≡ false = ap (λ k. same k dest) p.name ∙ e in
    let q = placed ns1 dest m (search_list-set ns p.place n dest p.here e1 ∙ g) in
    (
      set ns1 q.place (record m { visited = 1 }),
      ap (look (suc (suc fuel)) dest st) p.from
          ∙ look-direct (suc fuel) dest st p.place n c p.here v e1 h refl
          ∙ ap (look (suc fuel) dest (visit st p.place n)) q.from
          ∙ look-hit fuel dest (visit st p.place n) q.place m q.here w
              (ap (λ k. same k dest) q.name ∙ same_refl dest) refl
          ∙ ap₂
              (λ a b. done (record {
                nodes = set ns1 q.place (record m { visited = 1 });
                queue = a ∷ b ∷ [];
                result = result;
              }))
              q.name p.name,
      λ x r. leads-set ns1 q.place m x r q.here ∙ leads-set ns p.place n x r p.here,
    )

-- The way back from a queue with the destination over the source.
way_back-direct :
    (st : Search) (src dest : List ℕ)
    → leads (search_list st.nodes dest) (dest ∷ []) ≡ false
    → leads (search_list st.nodes src) (dest ∷ []) ≡ true
    → way_back st (pop_to dest (dest ∷ src ∷ [])) dest
      ≡ done (record st { queue = []; result = src ∷ dest ∷ [] })
unfolding way_back pop_to backtrack
way_back-direct st src dest f g = rw (same_refl dest, f, g) refl

search_list-nonempty :
    (ns : List Node) (x : List ℕ) (n : Node) → search_list ns x ≡ some n → 0 < length ns
unfolding search_list
search_list-nonempty [] x n h = absurd (none-ne_some n h)
search_list-nonempty (m ∷ ns) x n h = omega arith

leads-no_conv :
    (dest : List ℕ) {o : Option Node} {m : Node}
    → o ≡ some m
    → search_conv m.conv dest ≡ none
    → leads o (dest ∷ []) ≡ false
unfolding leads
leads-no_conv dest h k =
    rw h (ap (λ (x : Option Conv). elim x as (λ y. Bool) [ none ↦ false | some c ↦ true ]) k)

leads-conv :
    (dest : List ℕ) {o : Option Node} {m : Node} {c : Conv}
    → o ≡ some m
    → search_conv m.conv dest ≡ some c
    → leads o (dest ∷ []) ≡ true
unfolding leads
leads-conv dest h k =
    rw h (ap (λ (x : Option Conv). elim x as (λ y. Bool) [ none ↦ false | some c ↦ true ]) k)

-- Where a type has a conversion to another, which has none to itself, `bfs` from an empty queue finds
-- the chain of these two types.
pub bfs-HasConv :
    (st : Search) (src dest : List ℕ) (n m : Node) (c : Conv)
    → st.queue ≡ []
    → same src dest ≡ false
    → search_list st.nodes src ≡ some n
    → search_conv n.conv dest ≡ some c
    → search_list st.nodes dest ≡ some m
    → search_conv m.conv dest ≡ none
    → (after : Search) × (bfs st src dest ≡ done after) × (after.result ≡ src ∷ dest ∷ [])
unfolding bfs
bfs-HasConv st src dest n m c q e f h g k =
    let ns = reset_visited st.nodes in
    let n0 = search_list-reset_visited st.nodes src n f in
    let m0 = search_list-reset_visited st.nodes dest m g in
    let t =
      visit_twice ns src dest (record n { visited = 0 }) (record m { visited = 0 }) c n0 m0 refl
        refl e h (length st.nodes - 1) [] in
    let run =
      ap₂
        (λ l u.
          look (suc l) dest (record { nodes = ns; queue = u; result = [] }) (search_from 0 ns src))
        (enough_types (length st.nodes) (search_list-nonempty st.nodes src n f)) q
      ∙ t.1 in
    let last : Search = record { nodes = t.0; queue = dest ∷ src ∷ []; result = [] } in
    (
      record last { queue = []; result = src ∷ dest ∷ [] },
      rw (e, run)
          (way_back-direct last src dest (t.2 dest (dest ∷ []) ∙ leads-no_conv dest m0 k)
            (t.2 src (dest ∷ []) ∙ leads-conv dest n0 h)),
      refl,
    )
  where
    enough_types : (l : ℕ) → 0 < l → l ≡ suc (l - 1)
    enough_types l h = omega arith
