-- ===== src/Spooler/Tests.antt =====
-- Runs on small lists, and the theorems at concrete inputs.
use cse.Base.{ℕ, ◌≡◌, ◌<◌, refl, none, some, List, [], ◌∷◌, codes, arith, length, get_elem?, ◌≤◌}
use cse.Spooler.Printers.{
  no_printers, add_all, add_printer, insert_printer, search_printer, same, get_printer_by_id,
}
use cse.Spooler.Printers.Ids.{get_printer_by_id-add_all}
use cse.Spooler.Jobs.{
  Job, Jobs, add_job, search_jobid, free_chosen, dangling, remove_job, remove_later, after_job,
  free_later,
}
use cse.Spooler.Jobs.Queue.{IsFresh, add_job-search_jobid}
use cse.Spooler.Types.{
  Conv, Node, reset_visited, add_list, append_new, search_list, add_conv, conv_between, link,
  search_conv, put_conv,
}
use cse.Spooler.Search.{
  Search, Run, done, crash, no_fuel, bfs, look, look_at, look_node, look_each, search_from, visit,
  pop_to, way_back, backtrack, leads,
}
use cse.Spooler.Search.Fuel.{look-reset_visited}
use cse.Spooler.Search.Direct.{bfs-HasConv}
use cse.Spooler.Types.Graph.{HasConv, add_conv-HasConv}

abbrev requests : List (List ℕ × List ℕ)
requests =
    (codes "alice", codes "pdf") ∷ (codes "bob", codes "ps") ∷ (codes "bob", codes "pdf") ∷ []

-- The second printer named bob is refused.
two_printers : (add_all no_printers requests).printer_id ≡ 2
unfolding add_all add_printer insert_printer search_printer same
two_printers = refl

get_printer_by_id-add_all_example :
    (length (add_all no_printers requests).head < 32)
    × (get_printer_by_id (add_all no_printers requests).head 1
        ≡ get_elem? (add_all no_printers requests).head 1)
get_printer_by_id-add_all_example = get_printer_by_id-add_all requests 1 (omega arith)

abbrev one_job : Jobs
one_job = (add_job 100 (codes "a.pdf") (codes "pdf") 1 (record { head = []; job_id = 0 })).1

one_job-IsFresh : IsFresh one_job
unfolding add_job
one_job-IsFresh = (omega arith, tt)

add_job-search_jobid_example :
    IsFresh (add_job 101 (codes "b.ps") (codes "ps") 3 one_job).1
    × (search_jobid (add_job 101 (codes "b.ps") (codes "ps") 3 one_job).1.head one_job.job_id
        ≡ some (add_job 101 (codes "b.ps") (codes "ps") 3 one_job).0)
    × ((id : ℕ)
        → id < one_job.job_id
        → search_jobid (add_job 101 (codes "b.ps") (codes "ps") 3 one_job).1.head id
          ≡ search_jobid one_job.head id)
add_job-search_jobid_example =
    add_job-search_jobid 101 (codes "b.ps") (codes "ps") 3 one_job one_job-IsFresh

abbrev first_job : Job
first_job = (add_job 100 (codes "a.pdf") (codes "pdf") 1 (record { head = []; job_id = 0 })).0

abbrev next_job : Job
next_job = (add_job 101 (codes "b.ps") (codes "ps") 3 one_job).0

last_job_dangles : remove_job (first_job ∷ next_job ∷ []) 1 [] ≡ dangling (first_job ∷ []) []
unfolding remove_job remove_later after_job free_later free_chosen add_job
last_job_dangles = refl

abbrev types : List Node
types = (add_list (add_list [] (codes "pdf")).1 (codes "ps")).1

add_conv-HasConv_example :
    HasConv
      (add_conv types (codes "pdf") (codes "ps") (codes "pdf2ps") none).1
      (codes "pdf")
      (codes "ps")
unfolding add_list append_new search_list same add_conv conv_between link search_conv put_conv
add_conv-HasConv_example =
    add_conv-HasConv types (codes "pdf") (codes "ps") (codes "pdf2ps") none refl refl

abbrev bfs_result : Run Search → List (List ℕ)
bfs_result (done st) = st.result
bfs_result crash = []
bfs_result no_fuel = []

abbrev conv_to : List ℕ → Conv
conv_to name = record { dest = name; conv_prog = codes "conv"; args = none }

abbrev node_to : List ℕ → List ℕ → Node
node_to name to = record { data_of = name; visited = 0; conv = conv_to to ∷ [] }

abbrev end_node : List ℕ → Node
end_node name = record { data_of = name; visited = 0; conv = [] }

-- Types a, b and c with conversions from a to b and from b to c.
abbrev three_types : Search
three_types = record {
  nodes =
      node_to (codes "a") (codes "b") ∷ node_to (codes "b") (codes "c") ∷ end_node (codes "c") ∷ [];
  queue = [];
  result = [];
}

found_chain :
    (bfs_result (bfs three_types (codes "a") (codes "c"))) ≡ codes "a" ∷ codes "b" ∷ codes "c" ∷ []
unfolding bfs look look_at look_node look_each search_from visit pop_to way_back backtrack leads
    search_list search_conv reset_visited same
found_chain = refl

look-reset_visited_example :
    (after : Search) × (look 4
        (codes "c")
        (record three_types { nodes = reset_visited three_types.nodes })
        (some 0)
      ≡ done after)
    × (length after.queue ≤ 3)
look-reset_visited_example = look-reset_visited (codes "c") three_types (some 0) refl (omega arith)

-- The types b, a and c in another order: the chain from b over a to c is not found, since the search
-- for a type begins at the node.
abbrev other_order : Search
other_order = record {
  nodes =
      node_to (codes "a") (codes "c") ∷ node_to (codes "b") (codes "a") ∷ end_node (codes "c") ∷ [];
  queue = [];
  result = [];
}

missed_chain : bfs_result (bfs other_order (codes "b") (codes "c")) ≡ []
unfolding bfs look look_at look_node look_each search_from visit pop_to way_back backtrack leads
    search_list search_conv reset_visited same
missed_chain = refl

bfs-HasConv_example :
    (after : Search) × (bfs three_types (codes "b") (codes "c") ≡ done after)
    × (after.result ≡ codes "b" ∷ codes "c" ∷ [])
unfolding same search_list search_conv
bfs-HasConv_example =
    bfs-HasConv three_types (codes "b") (codes "c") (node_to (codes "b") (codes "c"))
      (end_node (codes "c")) (conv_to (codes "c")) refl refl refl refl refl refl
