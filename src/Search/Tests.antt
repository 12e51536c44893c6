-- ===== src/Search/Tests.antt =====
-- Searches of a graph with a cycle and two ways to the goal, for tests.
use pyverge.Prelude.{ℕ, ◌≡◌, ◌≤◌, refl, ◌⊎◌, Bool, true, none, List, [], ◌∷◌, length}
use pyverge.Prelude.Text.{codes, eq_text}
use pyverge.Prelude.Dict.{get, set_item}
use pyverge.Prelude.Linear.{linear_nat}
use pyverge.Prelude.Sorted.{sorted, insort_left, bisect_left}
use pyverge.Prelude.Groups.{bucket, contains, add}
use pyverge.Identity.{NodeId, EdgeId, default_discriminator}
use pyverge.Identity.Order.{linear_node, linear_edge, eq_node, eq_edge}
use pyverge.Backend.{BuildOptions, build, outgoing, incoming, edge_sets, at_ends}
use pyverge.Search.{
  path, no_path, shortest_path, neighbors, direction_both, update, reconstruct, scan, search,
  first_state, sorted_out,
}
use pyverge.Search.Walks.{IsWalk, shortest_path-least, shortest_path_total}

abbrev user : ℕ → NodeId ℕ
user v = record { namespace = codes "d"; kind = codes "U"; version = v }

abbrev step : ℕ → ℕ → EdgeId ℕ
step v w = record { source = user v; target = user w; discriminator = default_discriminator }

-- A cycle 1, 2, 3 with a shortcut from 2 to 4.
abbrev edges : List (EdgeId ℕ)
edges = step 3 1 ∷ step 2 4 ∷ step 1 2 ∷ step 2 3 ∷ step 3 4 ∷ []

abbrev options : BuildOptions ℕ
options = record {
  name = [];
  namespace = [];
  models_by_ref = none;
  executable_edge_ids = [];
  edge_metadata = [];
  digests = [];
  node_digests = [];
  edge_digests = [];
  hook_specs = [];
}

abbrev any : EdgeId ℕ → Bool
any e = true

search14 :
    shortest_path (build [] edges options) (user 1) (user 4) any ≡ path (step 1 2 ∷ step 2 4 ∷ [])
unfolding shortest_path search scan reconstruct first_state sorted_out outgoing bucket build
    edge_sets at_ends sorted insort_left bisect_left get set_item contains add
search14 = refl

search41 : shortest_path (build [] edges options) (user 4) (user 1) any ≡ no_path
unfolding shortest_path search scan reconstruct first_state sorted_out outgoing bucket build
    edge_sets at_ends sorted insort_left bisect_left get set_item contains add
search41 = refl

-- What lies beside the node 2, in order.
neighbors2 :
    neighbors (build [] edges options) (user 2) direction_both ≡ user 1 ∷ user 3 ∷ user 4 ∷ []
unfolding neighbors update outgoing incoming bucket build edge_sets at_ends sorted insort_left
    bisect_left get set_item contains add
neighbors2 = refl

-- The way round by node 3.
round_way : IsWalk edges any (user 1) (step 1 2 ∷ step 2 3 ∷ step 3 4 ∷ []) (user 4)
unfolding contains
round_way = (refl, refl, refl, (refl, refl, refl, (refl, refl, refl, refl)))

shortest_path-least_example :
    (es : List (EdgeId ℕ)) × (shortest_path (build [] edges options) (user 1) (user 4) any
      ≡ path es)
    × IsWalk edges any (user 1) es (user 4)
    × (length es ≤ 3)
shortest_path-least_example =
    shortest_path-least [] edges options any (user 1) (user 4) (step 1 2 ∷ step 2 3 ∷ step 3 4 ∷ [])
      round_way

shortest_path_total_example :
    (shortest_path (build [] edges options) (user 4) (user 1) any ≡ no_path)
    ⊎ (es : List (EdgeId ℕ)) × (shortest_path (build [] edges options) (user 4) (user 1) any
        ≡ path es)
      × IsWalk edges any (user 4) es (user 1)
shortest_path_total_example = shortest_path_total [] edges options any (user 4) (user 1)
