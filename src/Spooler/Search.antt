-- ===== src/Spooler/Search.antt =====
-- `Printer Spooler/src/list.c`: the search of a chain of conversions by `bfs`. A pointer to a node is
-- its place in the list. `queue` up to `loc` and `result` up to `res_loc` are lists, the last entry
-- first; a push past the 128 entries of an array is a `crash`.
pub mod Fuel
pub mod Direct
use cse.Base.{
  ℕ, zero, suc, ◌+◌, Bool, true, false, not, Option, none, some, List, [], ◌∷◌, ◌++◌, ◌==◌,
  if◌then◌else◌, get_elem?, set, length, ltb,
}
use mathlib.Core.Option.{map}
use cse.Spooler.Printers.{same}
use cse.Spooler.Types.{Conv, Node, search_list, search_conv, reset_visited}

pub record Search : Type 0 where
  pub nodes : List Node
  pub queue : List (List ℕ)
  pub result : List (List ℕ)

-- An outcome: a state; a crash, which is a write past the end of an array or the use of a NULL
-- pointer; or fuel that ran out.
pub data Run {ℓ} (A : Type ℓ) : Type ℓ where
  done : A → Run A
  crash : Run A
  no_fuel : Run A

abbrev pub and_then {ℓ κ} : {A : Type ℓ} {B : Type κ} → Run A → (A → Run B) → Run B
and_then (done x) f = f x
and_then crash f = crash
and_then no_fuel f = no_fuel

-- Whether one more entry goes into an array of 128.
abbrev pub has_entry : List (List ℕ) → Bool
has_entry xs = ltb (length xs) 128

-- `search_list` from the i-th node on, as a place.
unfoldable pub search_from : ℕ → List Node → List ℕ → Option ℕ
search_from i [] name = none
search_from zero (n ∷ ns) name =
    let rest = search_from zero ns name in if same n.data_of name then some 0 else map suc rest
search_from (suc i) (n ∷ ns) name = map suc (search_from i ns name)

-- `visited = 1` and the push of a node.
unfoldable pub visit : Search → ℕ → Node → Search
visit st i n = record st {
  nodes = set st.nodes i (record n { visited = 1 });
  queue = n.data_of ∷ st.queue;
}

-- The loop over the conversions of the i-th node, with the call of `look` for each.
unfoldable pub look_each : (Search → Option ℕ → Run Search) → ℕ → List Conv → Search → Run Search
look_each again i [] st = done st
look_each again i (c ∷ cs) st =
    and_then (again st (search_from i st.nodes c.dest)) (λ st1. look_each again i cs st1)

-- A node that was not visited.
unfoldable pub look_node :
    (Search → Option ℕ → Run Search) → ℕ → Node → List ℕ → Search → Run Search
look_node again i n dest st =
    let st1 = visit st i n in
    if not (has_entry st.queue)
    then crash
    else if same n.data_of dest
    then done st1
    else elim (search_conv n.conv dest) [
      | none ↦ look_each again i n.conv st1
      | some c ↦ again st1 (search_from 0 st1.nodes dest)
    ]

-- The call of `look` for a place, with the node that is there.
unfoldable pub look_at :
    (Search → Option ℕ → Run Search) → List ℕ → Search → ℕ → Option Node → Run Search
look_at again dest st i none = done st
look_at again dest st i (some n) = if n.visited == 0 then look_node again i n dest st else done st

-- `look` with fuel.
unfoldable pub look : ℕ → List ℕ → Search → Option ℕ → Run Search
look zero dest st p = no_fuel
look (suc fuel) dest st none = done st
look (suc fuel) dest st (some i) = look_at (look fuel dest) dest st i (get_elem? st.nodes i)

-- The loop of `bfs` that looks for the destination in the queue.
unfoldable pub pop_to : List ℕ → List (List ℕ) → List (List ℕ)
pop_to dest [] = []
pop_to dest (q ∷ qs) = let rest = pop_to dest qs in if same q dest then q ∷ qs else rest

-- Whether the type has a conversion to the last one of the result.
unfoldable pub leads : Option Node → List (List ℕ) → Bool
leads none result = false
leads (some n) [] = false
leads (some n) (r ∷ rs) = elim (search_conv n.conv r) [ none ↦ false | some c ↦ true ]

-- A push on `result` where there is something to push.
abbrev pub push_if : Bool → List ℕ → List (List ℕ) → Run (List (List ℕ))
push_if false q result = done result
push_if true q result = if has_entry result then done (q ∷ result) else crash

unfoldable pub backtrack : List Node → List (List ℕ) → List (List ℕ) → Run (List (List ℕ))
backtrack ns [] result = done result
backtrack ns (q ∷ qs) result =
    and_then (push_if (leads (search_list ns q) result) q result) (backtrack ns qs)

-- After the search: where the queue is left with the destination on top, the way back from it.
unfoldable pub way_back : Search → List (List ℕ) → List ℕ → Run Search
way_back st [] dest = done (record st { queue = []; result = [] })
way_back st (q ∷ []) dest = done (record st { queue = q ∷ []; result = dest ∷ [] })
way_back st (q ∷ p ∷ qs) dest =
    and_then (backtrack st.nodes (q ∷ p ∷ qs) (dest ∷ []))
      (λ r. done (record st { queue = []; result = r }))

-- The result from its last entry on is the order in which `bfs` leaves the array. One call for each
-- type and one more are enough fuel.
unfoldable pub bfs : Search → List ℕ → List ℕ → Run Search
bfs st src dest =
    let start = record st { nodes = reset_visited st.nodes; result = [] } in
    let found = look (suc (length st.nodes)) dest start (search_from 0 start.nodes src) in
    if same src dest
    then if has_entry st.result then done (record st { result = src ∷ st.result }) else crash
    else and_then found (λ st1. way_back st1 (pop_to dest st1.queue) dest)
