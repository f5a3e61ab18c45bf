-- ===== src/Spooler/Types/Graph.antt =====
-- What `add_conv` adds to the graph of file types.
use cse.Base.{
  ℕ, ◌≡◌, ◌≢◌, refl, ap, true, false, Option, none, some, List, [], ◌∷◌, ◌++◌, Bool-cases,
  Option-cases, inl, inr, arith, ==_refl,
}
use cse.Spooler.Printers.{same}
use cse.Spooler.Types.{Conv, Node, search_list, search_conv, put_conv, link, conv_between, add_conv}

pub same_refl : (s : List ℕ) → same s s ≡ true
unfolding same
same_refl [] = refl
same_refl (c ∷ s) = rw (==_refl c) (same_refl s)

search_conv-append :
    (cs : List Conv) (c : Conv)
    → search_conv cs c.dest ≡ none
    → search_conv (cs ++ (c ∷ [])) c.dest ≡ some c
unfolding search_conv
search_conv-append [] c e = rw (same_refl c.dest) refl
search_conv-append (d ∷ cs) c e = elim (Bool-cases (same d.dest c.dest)) [
  | inl f ↦ absurd (some_none d (rw f at e))
  | inr f ↦ rw f (search_conv-append cs c (rw f at e))
]
  where
    some_none : (d : Conv) → some d ≢ none
    some_none d h = ground arith

-- The node of the name has the conversion after it is put there.
search_list-put_conv :
    (ns : List Node) (name : List ℕ) (c : Conv) (n : Node)
    → search_list ns name ≡ some n
    → search_list (put_conv name c ns) name ≡ some (record n { conv = n.conv ++ (c ∷ []) })
unfolding search_list put_conv
search_list-put_conv [] name c n e = ground arith
search_list-put_conv (m ∷ ns) name c n e = elim (Bool-cases (same m.data_of name)) [
  | inl f ↦
      rw f (
        rw f (ap (λ (x : Node). some (record x { conv = x.conv ++ (c ∷ []) })) (inner (rw f at e))))
  | inr f ↦ rw f (rw f (search_list-put_conv ns name c n (rw f at e)))
]
  where
    inner : some m ≡ some n → m ≡ n
    inner h = ap (λ (o : Option Node). elim o [ none ↦ m | some x ↦ x ]) h

-- The node of the first type has a conversion to the second.
abbrev pub HasConv : List Node → List ℕ → List ℕ → Type 0
HasConv ns data1 data2 =
    (n : Node) × (c : Conv) × (search_list ns data1 ≡ some n) × (search_conv n.conv data2 ≡ some c)

link-HasConv :
    (ns : List Node) (data1 : List ℕ) (c : Conv) (n : Node)
    → search_list ns data1 ≡ some n
    → HasConv (link (search_conv n.conv c.dest) data1 c ns) data1 c.dest
unfolding link
link-HasConv ns data1 c n e = elim (Option-cases (search_conv n.conv c.dest)) [
  | inl f ↦ rw f (
    record n { conv = n.conv ++ (c ∷ []) },
    c,
    search_list-put_conv ns data1 c n e,
    search_conv-append n.conv c f,
  )
  | inr (old, f) ↦ rw f (n, old, e, f)
]

between-HasConv :
    (ns : List Node) (data1 : List ℕ) (d1 d2 : Option Node) (c : Conv)
    → search_list ns data1 ≡ d1
    → (conv_between d1 d2 data1 c ns).0 ≡ true
    → HasConv (conv_between d1 d2 data1 c ns).1 data1 c.dest
unfolding conv_between
between-HasConv ns data1 none d2 c e t = ground arith
between-HasConv ns data1 (some n) none c e t = ground arith
between-HasConv ns data1 (some n) (some m) c e t = link-HasConv ns data1 c n e

-- Where `add_conv` returns 1 for two different types, the node of the first type then has a
-- conversion to the second.
pub add_conv-HasConv :
    (ns : List Node) (data1 data2 conv_prog : List ℕ) (args : Option (List ℕ))
    → same data1 data2 ≡ false
    → (add_conv ns data1 data2 conv_prog args).0 ≡ true
    → HasConv (add_conv ns data1 data2 conv_prog args).1 data1 data2
unfolding add_conv
add_conv-HasConv ns data1 data2 conv_prog args d t =
    rw d (between-HasConv ns data1 (search_list ns data1) (search_list ns data2) _ refl (rw d at t))
