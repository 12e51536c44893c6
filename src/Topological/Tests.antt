-- ===== src/Topological/Tests.antt =====
-- Sorts of a graph with two ways to a node and of a graph with a cycle, for tests.
use pyverge.Prelude.{ℕ, ◌≡◌, refl, true, none, List, [], ◌∷◌, if◌then◌else◌}
use pyverge.Prelude.Text.{codes, eq_text}
use pyverge.Prelude.Dict.{get, set_item}
use pyverge.Prelude.Linear.{linear_nat}
use pyverge.Prelude.Sorted.{sorted, insort_left, bisect_left}
use pyverge.Prelude.Groups.{bucket, contains, add}
use pyverge.Errors.{graph_cycle}
use pyverge.Identity.{NodeId, NodeEntry, EdgeId, default_discriminator}
use pyverge.Identity.Order.{linear_node, linear_edge, eq_node, eq_edge}
use pyverge.Backend.{BuildOptions, build, outgoing, edge_sets, at_ends}
use pyverge.Search.{sorted_out}
use pyverge.Topological.{
  order, raised, out_of_fuel, zeros, count_edges, release, drain, first_ready, topological_sort,
}
use pyverge.Topological.Counts.{tally}
use pyverge.Topological.Degrees.{is_entry}
use pyverge.Topological.Whole.{
  topological_sort-before, tally-topological_sort, topological_sort_total,
}

abbrev user : ℕ → NodeId ℕ
user v = record { namespace = codes "d"; kind = codes "U"; version = v }

abbrev entry : ℕ → NodeEntry ℕ
entry v = record { id = user v; descriptor = none }

abbrev step : ℕ → ℕ → EdgeId ℕ
step v w = record { source = user v; target = user w; discriminator = default_discriminator }

abbrev options : BuildOptions ℕ
options = record {
  name = [];
  namespace = [];
  models_by_ref = none;
  executable_edge_ids = [];
  edge_metadata = [];
  digests = [];
  node_digests = [];
  edge_digests = [];
  hook_specs = [];
}

abbrev three : List (NodeEntry ℕ)
three = entry 1 ∷ entry 2 ∷ entry 3 ∷ []

-- The version 3 comes first, and the version 1 waits for both.
abbrev downs : List (EdgeId ℕ)
downs = step 2 1 ∷ step 3 2 ∷ step 3 1 ∷ []

sort321 : topological_sort (build three downs options) ≡ order (user 3 ∷ user 2 ∷ user 1 ∷ [])
unfolding topological_sort zeros count_edges release drain first_ready sorted_out outgoing bucket
    build edge_sets at_ends sorted insort_left bisect_left get set_item contains add
sort321 = refl

sort_cycle : topological_sort (build three (step 1 2 ∷ step 2 1 ∷ []) options) ≡ raised graph_cycle
unfolding topological_sort zeros count_edges release drain first_ready sorted_out outgoing bucket
    build edge_sets at_ends sorted insort_left bisect_left get set_item contains add
sort_cycle = refl

-- An edge that stands twice is counted twice and followed once.
sort_twice : topological_sort (build three (step 1 2 ∷ step 1 2 ∷ []) options) ≡ raised graph_cycle
unfolding topological_sort zeros count_edges release drain first_ready sorted_out outgoing bucket
    build edge_sets at_ends sorted insort_left bisect_left get set_item contains add
sort_twice = refl

among : contains (step 2 1) downs ≡ true
unfolding contains
among = refl

topological_sort-before_example : contains (user 2) (user 3 ∷ user 2 ∷ []) ≡ true
topological_sort-before_example =
    topological_sort-before three downs options (user 3 ∷ user 2 ∷ []) [] (step 2 1) sort321 among

tally-topological_sort_example :
    tally (user 2) (user 3 ∷ user 2 ∷ user 1 ∷ []) ≡ (if is_entry (user 2) three then 1 else 0)
tally-topological_sort_example =
    tally-topological_sort three downs options (user 3 ∷ user 2 ∷ user 1 ∷ []) (user 2) sort321

topological_sort_total_example : ¬ (topological_sort (build three downs options) ≡ out_of_fuel)
topological_sort_total_example = topological_sort_total three downs options
