-- ===== src/Spooler/Commands/Room.antt =====
-- `Printer Spooler/src/list.c`: the room that the searches for jobs leave in `queue` and `result`.
use cse.Base.{
  ℕ, zero, suc, ◌+◌, ◌<◌, ◌≤◌, ◌≡◌, ◌⊎◌, inl, inr, refl, ap, Bool, true, false, ◌&&◌, Option, none,
  some, List, [], ◌∷◌, length, arith, Bool-cases,
}
use mathlib.Core.Path.{subst}
use cse.Spooler.Printers.{Printer, get_printer_by_id, same}
use cse.Spooler.Jobs.{Job}
use cse.Spooler.Types.{Node, search_list, reset_visited}
use cse.Spooler.Search.{
  Search, Run, done, crash, has_entry, bfs, search_from, pop_to, way_back, backtrack, leads,
}
use cse.Spooler.Search.Fuel.{look-Looks, unvisited-reset_visited}
use cse.Spooler.Commands.{can_print, type_of, has_bit, found_path, find_loop}

-- Both arrays have room for the searches for n jobs.
pub record HasRoom (st : Search) (n : ℕ) : Type 0 where
  pub queue : length st.queue ≤ 1
  pub types : length st.nodes + n ≤ 126
  pub results : length st.result + n ≤ 128

pub resize : (st : Search) (m n : ℕ) → m ≡ n → HasRoom st m → HasRoom st n
resize st m n e h = record {
  queue = h.queue;
  types = omega (arith, h.types, e);
  results = omega (arith, h.results, e);
}

-- One that is found needs no more room.
abbrev RoomAfter : Bool → Search → ℕ → Type 0
RoomAfter true st n = HasRoom st n
RoomAfter false st n = HasRoom st (suc n)

abbrev pub RoomFound : Option Printer × Search → ℕ → Type 0
RoomFound (none, st) n = HasRoom st (suc n)
RoomFound (some p, st) n = HasRoom st n

fewer : (b : Bool) (st : Search) (n : ℕ) → HasRoom st (suc n) → RoomAfter b st n
fewer false st n h = h
fewer true st n h = record {
  queue = h.queue;
  types = omega (arith, h.types);
  results = omega (arith, h.results);
}

length-reset_visited : (ns : List Node) → length (reset_visited ns) ≡ length ns
unfolding reset_visited
length-reset_visited [] = refl
length-reset_visited (n ∷ ns) = ap suc (length-reset_visited ns)

length-pop_to : (dest : List ℕ) (qs : List (List ℕ)) → length (pop_to dest qs) ≤ length qs
unfolding pop_to
length-pop_to dest [] = omega arith
length-pop_to dest (q ∷ qs) = elim (Bool-cases (same q dest)) [
  | inl e ↦ rw e (omega arith)
  | inr e ↦ rw e (omega (arith, length-pop_to dest qs))
]

-- The way back ends, or it has more to push than `result` has entries left.
Backs : ℕ → Run (List (List ℕ)) → Type 0
Backs n o = (o ≡ crash) × (128 < n) ⊎ ((r : List (List ℕ)) × (o ≡ done r) × (length r ≤ n))

widen : (m n : ℕ) (o : Run (List (List ℕ))) → m ≤ n → Backs m o → Backs n o
unfolding Backs
widen m n o l (inl e) = inl (e.0, omega (arith, e.1))
widen m n o l (inr e) = inr (e.0, e.1, omega (arith, e.2))

backtrack-Backs :
    (ns : List Node) (qs result : List (List ℕ))
    → Backs (length result + length qs) (backtrack ns qs result)
unfolding backtrack Backs
backtrack-Backs ns [] result = inr (result, refl, omega arith)
backtrack-Backs ns (q ∷ qs) result = elim (Bool-cases (leads (search_list ns q) result)) [
  | inr e ↦ rw e (widen _ _ _ (omega arith) (backtrack-Backs ns qs result))
  | inl e ↦ elim (Bool-cases (has_entry result)) [
    | inl h ↦ rw (e, h) (widen _ _ _ (omega arith) (backtrack-Backs ns qs (q ∷ result)))
    | inr h ↦ inl (rw (e, h) refl, ground (arith, h))
  ]
]

record Back (st st1 : Search) (n : ℕ) : Type 0 where
  queue : length st1.queue ≤ 1
  nodes : st1.nodes ≡ st.nodes
  results : length st1.result ≤ suc n

way_back-Back :
    (st : Search) (qs : List (List ℕ)) (dest : List ℕ)
    → (way_back st qs dest ≡ crash) × (127 < length qs)
      ⊎ ((st1 : Search) × (way_back st qs dest ≡ done st1) × Back st st1 (length qs))
unfolding way_back Backs
way_back-Back st [] dest =
    inr (_, refl, record { queue = omega arith; nodes = refl; results = omega arith })
way_back-Back st (q ∷ []) dest =
    inr (_, refl, record { queue = omega arith; nodes = refl; results = omega arith })
way_back-Back st (q ∷ p ∷ qs) dest = elim (backtrack-Backs st.nodes (q ∷ p ∷ qs) (dest ∷ [])) [
  | inl e ↦ inl (rw e.0 refl, omega (arith, e.1))
  | inr e ↦ inr (
    record st { queue = []; result = e.0 },
    rw e.1 refl,
    record { queue = omega arith; nodes = refl; results = omega (arith, e.2) },
  )
]

-- A search that any search may come before: it ends, or it has no room.
bfs-Runs :
    (st : Search) (src dest : List ℕ) (n : ℕ)
    → (bfs st src dest ≡ crash) × (HasRoom st (suc n) → ⊥)
      ⊎ ((st1 : Search) × (bfs st src dest ≡ done st1)
          × (HasRoom st (suc n) → RoomAfter (found_path st1) st1 n))
unfolding bfs
bfs-Runs st src dest n = elim (Bool-cases (same src dest)) [
  | inl e ↦ elim (Bool-cases (has_entry st.result)) [
    | inl o ↦ inr (
      record st { result = src ∷ st.result },
      rw (e, o) refl,
      λ h. record {
        queue = h.queue;
        types = omega (arith, h.types);
        results = omega (arith, h.results);
      },
    )
    | inr o ↦ inl (rw (e, o) refl, λ h. ground (arith, o, h.results))
  ]
  | inr e ↦
      elim (look-Looks (suc (length st.nodes)) dest start (search_from 0 start.nodes src)
        (omega (arith, unvisited-reset_visited st.nodes))) [
          | inl o ↦ inl (
            rw (e, o.0) refl,
            λ h. omega (arith, o.1, h.queue, h.types, unvisited-reset_visited st.nodes),
          )
          | inr a ↦ elim (way_back-Back a.after (pop_to dest a.after.queue) dest) [
            | inl b ↦ inl (
              rw (e, a.ends) b.0,
              λ h. omega (
                arith,
                b.1,
                a.visits,
                h.queue,
                h.types,
                unvisited-reset_visited st.nodes,
                length-pop_to dest a.after.queue,
              ),
            )
            | inr b ↦ inr (
              b.0,
              rw (e, a.ends) b.1,
              λ h. fewer (found_path b.0) b.0 n (record {
                queue = b.2.queue;
                types =
                    omega
                      (arith, h.types, ap length b.2.nodes, a.size, length-reset_visited st.nodes);
                results = omega (
                  arith,
                  b.2.results,
                  a.visits,
                  h.queue,
                  h.types,
                  unvisited-reset_visited st.nodes,
                  length-pop_to dest a.after.queue,
                );
              }),
            )
          ]
        ]
]
  where
    start : Search
    start = record st { nodes = reset_visited st.nodes; result = [] }

second : (a b : Bool) → (a && b) ≡ true → b ≡ true
second a b e = ground (arith, e)

found :
    (p : Option Printer) (st : Search) (n : ℕ)
    → can_print p ≡ true
    → HasRoom st n
    → RoomFound (p, st) n
found none st n e h = absurd (cc (e))
found (some p) st n e h = h

pub find_loop-Runs :
    (n k : ℕ) (i : ℕ) (job : Job) (ps : List Printer) (st : Search)
    → (find_loop k i job ps st ≡ crash) × (HasRoom st (suc n) → ⊥)
      ⊎ ((x : Option Printer × Search) × (find_loop k i job ps st ≡ done x)
          × (HasRoom st (suc n) → RoomFound x n))
unfolding find_loop
find_loop-Runs n zero i job ps st = inr ((none, st), refl, λ h. h)
find_loop-Runs n (suc k) i job ps st =
    elim (Bool-cases (has_bit job.eligible_printers i && can_print (get_printer_by_id ps i))) [
      | inr e ↦ rw (e) (find_loop-Runs n k (i + 1) job ps st)
      | inl e ↦ elim (bfs-Runs st job.file_type (type_of (get_printer_by_id ps i)) n) [
        | inl o ↦ inl (rw (e, o.0) refl, o.1)
        | inr a ↦ elim (Bool-cases (found_path a.0)) [
          | inl h ↦ inr (
            (get_printer_by_id ps i, a.0),
            rw (e, a.1, h) refl,
            λ r. found (get_printer_by_id ps i) a.0 n (second _ _ e) (roomy a.0 true h (a.2 r)),
          )
          | inr h ↦ elim (find_loop-Runs n k (i + 1) job ps a.0) [
            | inl o ↦ inl (rw (e, a.1, h) o.0, λ r. o.1 (roomy a.0 false h (a.2 r)))
            | inr b ↦ inr (b.0, rw (e, a.1, h) b.1, λ r. b.2 (roomy a.0 false h (a.2 r)))
          ]
        ]
      ]
    ]
  where
    roomy :
        (st1 : Search) (b : Bool)
        → found_path st1 ≡ b
        → RoomAfter (found_path st1) st1 n
        → RoomAfter b st1 n
    roomy st1 b e h = subst (λ c. RoomAfter c st1 n) e h
