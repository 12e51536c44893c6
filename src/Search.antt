-- ===== src/Search.antt =====
-- core/graph/backend/indexed.py: `neighbors`, `shortest_path` and `_reconstruct`.
pub mod Paths
pub mod Invariant
pub mod Pushed
pub mod Rounds
pub mod Shortest
pub mod Walks
pub mod Tests
use pyverge.Prelude.{
  ℕ, zero, suc, Bool, true, false, not, ◌||◌, Option, none, some, List, [], ◌∷◌, ◌++◌, map, length,
  if◌then◌else◌, ◌==◌,
}
use pyverge.Prelude.Dict.{Dict, get, set_item}
use pyverge.Prelude.Linear.{Linear}
use pyverge.Prelude.Sorted.{sorted}
use pyverge.Prelude.Groups.{contains, add}
use pyverge.Identity.{NodeId, EdgeId}
use pyverge.Identity.Order.{linear_node, linear_edge, eq_node}
use pyverge.Backend.{IndexedBackend, outgoing, incoming}

-- `Literal["out", "in", "both"]`
pub data Direction : Type 0 where
  direction_out direction_in direction_both : Direction

-- The state of the search: the deque, the set of nodes seen and the edge by which each was met.
pub record State (V : Type 0) : Type 0 where
  pub queue : List (NodeId V)
  pub seen : List (NodeId V)
  pub predecessor : Dict (NodeId V) (EdgeId V)

-- How a search ends; `missing` is a KeyError, and the last is the fuel's.
pub data Found (V : Type 0) : Type 0 where
  path : List (EdgeId V) → Found V
  no_path missing out_of_fuel : Found V

-- How the loop over the edges of a node ends: at the goal, or not.
pub data Scanned (V : Type 0) : Type 0 where
  met : Dict (NodeId V) (EdgeId V) → Scanned V
  left : State V → Scanned V

module _ {V : Type 0} ⦃o : Linear V⦄ where
  -- `_reconstruct`, which collects the edges from the last to the first.
  unfoldable pub reconstruct :
      ℕ → Dict (NodeId V) (EdgeId V) → NodeId V → NodeId V → List (EdgeId V) → Found V
  reconstruct zero predecessor start current collected = out_of_fuel
  reconstruct (suc n) predecessor start current collected = elim (current == start) [
    | true ↦ path collected
    | false ↦ elim (get current predecessor) [
      | none ↦ missing
      | some edge ↦ reconstruct n predecessor start edge.source (edge ∷ collected)
    ]
  ]

  -- `seen.add(nxt); predecessor[nxt] = edge; queue.append(nxt)`
  abbrev pub pushed : EdgeId V → State V → State V
  pushed edge s = record {
    queue = s.queue ++ edge.target ∷ [];
    seen = add edge.target s.seen;
    predecessor = set_item edge.target edge s.predecessor;
  }

  module _ (out : NodeId V → List (EdgeId V)) (allowed : EdgeId V → Bool)
      (start goal : NodeId V) where
    -- `for edge in sorted(self.outgoing(current))`
    unfoldable pub scan : List (EdgeId V) → State V → Scanned V
    scan [] s = left s
    scan (edge ∷ edges) s = elim (not (allowed edge) || contains edge.target s.seen) [
      | true ↦ scan edges s
      | false ↦ elim (edge.target == goal) [
        | true ↦ met (set_item edge.target edge s.predecessor)
        | false ↦ scan edges (pushed edge s)
      ]
    ]

    -- `while queue`
    unfoldable pub search : ℕ → State V → Found V
    unfolding scan reconstruct
    search zero s = out_of_fuel
    search (suc n) s = elim s.queue [
      | [] ↦ no_path
      | current ∷ rest ↦ elim (scan (out current) (record s { queue = rest })) [
        | met predecessor ↦ reconstruct (suc (length predecessor)) predecessor start goal []
        | left s' ↦ search n s'
      ]
    ]

    unfoldable pub first_state : State V
    first_state = record { queue = start ∷ []; seen = start ∷ []; predecessor = [] }

  -- `sorted(self.outgoing(current))`
  unfoldable pub sorted_out : IndexedBackend V → NodeId V → List (EdgeId V)
  unfolding outgoing
  sorted_out b n = sorted (λ (e : EdgeId V). e) (outgoing b n)

  -- Each round takes a node from the deque, and each node but the first is met by an edge.
  unfoldable pub shortest_path :
      IndexedBackend V → NodeId V → NodeId V → (EdgeId V → Bool) → Found V
  unfolding sorted_out search first_state
  shortest_path b source target allowed =
      if source == target
      then path []
      else search (sorted_out b) allowed source target (suc (suc (length b.edges)))
          (first_state (sorted_out b) allowed source target)

  -- `neighbors.update(items)`
  unfoldable pub update : List (NodeId V) → List (NodeId V) → List (NodeId V)
  update s [] = s
  update s (n ∷ ns) = update (add n s) ns

  unfoldable pub neighbors : IndexedBackend V → NodeId V → Direction → List (NodeId V)
  unfolding update outgoing incoming
  neighbors b node direction =
      let targets = map (λ (e : EdgeId V). e.target) (outgoing b node) in
      let sources = map (λ (e : EdgeId V). e.source) (incoming b node) in
      sorted (λ (n : NodeId V). n)
        (elim direction [
          | direction_out ↦ update [] targets
          | direction_in ↦ update [] sources
          | direction_both ↦ update (update [] targets) sources
        ])
