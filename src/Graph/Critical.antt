-- ===== src/Graph/Critical.antt =====
-- `MigrationGraph.is_critical_edge`: the test `idx > 0 or idx < len(edges) - 1` holds of every
-- index once there are more than two edges.
use pyverge.Prelude.{ℕ, ◌≡◌, ◌&&◌, Option, none, some, length, ltb, arith}
use pyverge.Prelude.Dict.{is_some}
use pyverge.Prelude.Linear.{Linear}
use pyverge.Identity.{EdgeId}
use pyverge.Identity.Order.{eq_edge}
use pyverge.Graph.{MigrationGraph}
use pyverge.Graph.Lookup.{edges, found_at, is_inner, is_critical_edge}

is_inner_lem :
    (count : ℕ) (found : Option ℕ) → is_inner count found ≡ (is_some found && ltb 2 count)
is_inner_lem count none = ground arith
is_inner_lem count (some i) = ground arith

module _ {V : Type 0} ⦃o : Linear V⦄ where
  -- An edge is critical exactly when it is registered for its kind and the kind has more than two
  -- edges, wherever it stands among them: the first and the last edge count too.
  pub is_critical_edge_lem :
      (g : MigrationGraph V) (key : EdgeId V)
      → is_critical_edge g key ≡ (
          is_some (found_at 0 key (edges g key.source.kind))
          && ltb 2 (length (edges g key.source.kind)))
  unfolding is_critical_edge edges
  is_critical_edge_lem g key =
      is_inner_lem (length (edges g key.source.kind)) (found_at 0 key (edges g key.source.kind))
