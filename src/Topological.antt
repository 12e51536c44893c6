-- ===== src/Topological.antt =====
-- core/graph/backend/indexed.py: `topological_sort`.
pub mod Counts
pub mod Degrees
pub mod Kahn
pub mod Split
pub mod Respected
pub mod Start
pub mod Whole
pub mod Tests
use pyverge.Prelude.{
  ℕ, zero, suc, Bool, true, false, Option, none, some, List, [], ◌∷◌, ◌++◌, map, length,
  if◌then◌else◌, keep_if, ◌==◌, eq_nat,
}
use pyverge.Prelude.Int.{ℤ, pos, negsuc}
use pyverge.Prelude.Dict.{Dict, get, set_item}
use pyverge.Prelude.Linear.{Linear}
use pyverge.Prelude.Sorted.{sorted}
use pyverge.Errors.{Fault, key_error, graph_cycle, Outcome, ok, err, ◌>>=◌}
use pyverge.Identity.{NodeId, NodeEntry, EdgeId}
use pyverge.Identity.Order.{linear_node, linear_edge, eq_node}
use pyverge.Backend.{IndexedBackend}
use pyverge.Search.{sorted_out}

abbrev pub plus_one : ℤ → ℤ
plus_one (pos n) = pos (suc n)
plus_one (negsuc zero) = pos zero
plus_one (negsuc (suc n)) = negsuc n

abbrev pub minus_one : ℤ → ℤ
minus_one (pos zero) = negsuc zero
minus_one (pos (suc n)) = pos n
minus_one (negsuc n) = negsuc (suc n)

abbrev pub is_zero : ℤ → Bool
is_zero (pos zero) = true
is_zero (pos (suc n)) = false
is_zero (negsuc n) = false

abbrev pub is_some_zero : Option ℤ → Bool
is_some_zero none = false
is_some_zero (some i) = is_zero i

-- How a sort ends; the last is the fuel's.
pub data Sorting (V : Type 0) : Type 0 where
  order : List (NodeId V) → Sorting V
  raised : Fault → Sorting V
  out_of_fuel : Sorting V

module _ {V : Type 0} ⦃o : Linear V⦄ where
  -- `{entry.id: 0 for entry in self.nodes}`
  unfoldable pub zeros : List (NodeEntry V) → Dict (NodeId V) ℤ → Dict (NodeId V) ℤ
  zeros [] d = d
  zeros (n ∷ ns) d = zeros ns (set_item n.id (pos 0) d)

  -- `indegree[edge.target.id] += 1` for each edge.
  unfoldable pub count_edges : List (EdgeId V) → Dict (NodeId V) ℤ → Outcome (Dict (NodeId V) ℤ)
  count_edges [] d = ok d
  count_edges (e ∷ es) d = elim (get e.target d) [
    | none ↦ err key_error
    | some i ↦ count_edges es (set_item e.target (plus_one i) d)
  ]

  -- The loop over the edges that go out of a node: the degrees fall, and a node whose degree
  -- falls to zero joins the deque.
  unfoldable pub release :
      List (EdgeId V)
      → Dict (NodeId V) ℤ
      → List (NodeId V)
      → Outcome (Dict (NodeId V) ℤ × List (NodeId V))
  release [] d ready = ok (d, ready)
  release (e ∷ es) d ready = elim (get e.target d) [
    | none ↦ err key_error
    | some i ↦
        release es (set_item e.target (minus_one i) d)
          (if is_zero (minus_one i) then ready ++ e.target ∷ [] else ready)
  ]

  module _ (out : NodeId V → List (EdgeId V)) where
    -- `while ready`
    unfoldable pub drain : ℕ → Dict (NodeId V) ℤ → List (NodeId V) → List (NodeId V) → Sorting V
    unfolding release
    drain zero d ready ordered = out_of_fuel
    drain (suc n) d [] ordered = order ordered
    drain (suc n) d (current ∷ ready) ordered = elim (release (out current) d ready) [
      | err f ↦ raised f
      | ok (d', ready') ↦ drain n d' ready' (ordered ++ current ∷ [])
    ]

  -- `if len(ordered) != len(indegree)`
  abbrev pub checked : ℕ → Sorting V → Sorting V
  checked n (order ns) = if length ns == n then order ns else raised graph_cycle
  checked n (raised f) = raised f
  checked n out_of_fuel = out_of_fuel

  unfoldable pub first_ready : Dict (NodeId V) ℤ → List (NodeId V)
  first_ready d =
      keep_if (λ n. is_some_zero (get n d)) (sorted (λ (n : NodeId V). n) (map (λ item. item.0) d))

  -- Each node is taken once at most.
  unfoldable pub topological_sort : IndexedBackend V → Sorting V
  unfolding zeros count_edges drain first_ready sorted_out
  topological_sort b = elim (count_edges b.edges (zeros b.nodes [])) [
    | err f ↦ raised f
    | ok d ↦ checked (length d) (drain (sorted_out b) (suc (length d)) d (first_ready d) [])
  ]
