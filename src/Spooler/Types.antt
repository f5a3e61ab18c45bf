-- ===== src/Spooler/Types.antt =====
-- `Printer Spooler/src/list.c`: the file types, each with its conversions, as `add_list` and `add_conv`
-- keep them.
pub mod Graph
use cse.Base.{
  ℕ, zero, suc, Bool, true, false, Option, none, some, List, [], ◌∷◌, ◌++◌, if◌then◌else◌,
}
use cse.Spooler.Printers.{same}

-- `struct Conv`
pub record Conv : Type 0 where
  pub dest : List ℕ
  pub conv_prog : List ℕ
  pub args : Option (List ℕ)

-- `struct Node`
pub record Node : Type 0 where
  pub data_of : List ℕ
  pub visited : ℕ
  pub conv : List Conv

unfoldable pub search_list : List Node → List ℕ → Option Node
search_list [] name = none
search_list (n ∷ ns) name =
    let rest = search_list ns name in if same n.data_of name then some n else rest

unfoldable pub append_new : Option Node → List ℕ → List Node → Option Node × List Node
append_new (some n) name ns = (none, ns)
append_new none name ns =
    let node : Node = record { data_of = name; visited = 0; conv = [] } in
    (some node, ns ++ (node ∷ []))

-- NULL and no change where the type exists, else the new node at the end.
unfoldable pub add_list : List Node → List ℕ → Option Node × List Node
add_list ns name = append_new (search_list ns name) name ns

unfoldable pub search_conv : List Conv → List ℕ → Option Conv
search_conv [] dest = none
search_conv (c ∷ cs) dest =
    let rest = search_conv cs dest in if same c.dest dest then some c else rest

-- The first node with the name, which `search_list` points to, is changed in place.
unfoldable pub put_conv : List ℕ → Conv → List Node → List Node
put_conv name c [] = []
put_conv name c (n ∷ ns) =
    let rest = put_conv name c ns in
    if same n.data_of name then record n { conv = n.conv ++ (c ∷ []) } ∷ ns else n ∷ rest

unfoldable pub link : Option Conv → List ℕ → Conv → List Node → List Node
link (some old) data1 c ns = ns
link none data1 c ns = put_conv data1 c ns

unfoldable pub conv_between :
    Option Node → Option Node → List ℕ → Conv → List Node → Bool × List Node
conv_between none d2 data1 c ns = (false, ns)
conv_between (some d1) none data1 c ns = (false, ns)
conv_between (some d1) (some d2) data1 c ns = (true, link (search_conv d1.conv c.dest) data1 c ns)

unfoldable pub add_conv : List Node → List ℕ → List ℕ → List ℕ → Option (List ℕ) → Bool × List Node
add_conv ns data1 data2 conv_prog args =
    let c : Conv = record { dest = data2; conv_prog = conv_prog; args = args } in
    let added = conv_between (search_list ns data1) (search_list ns data2) data1 c ns in
    if same data1 data2 then (true, ns) else added

-- `reset_visited`
unfoldable pub reset_visited : List Node → List Node
reset_visited [] = []
reset_visited (n ∷ ns) = record n { visited = 0 } ∷ reset_visited ns
