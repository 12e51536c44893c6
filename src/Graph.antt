-- ===== src/Graph.antt =====
-- core/graph/graph.py: the locked migration graph, its lookups and the walk between two versions.
pub mod Places
pub mod Hops
pub mod Walk
pub mod Usable
pub mod Reach
pub mod Lookup
pub mod Extremes
pub mod Critical
mod Tests
use pyverge.Prelude.{
  ℕ, zero, suc, ◌+◌, ◌-◌, Bool, true, false, not, ◌&&◌, ◌||◌, Option, none, some, List, [], ◌∷◌,
  ◌++◌, length, map, get_elem?, keep_if, if◌then◌else◌, ◌==◌, nat_eq, eq_nat, ltb,
}
use pyverge.Prelude.Text.{Text, eq_text, text_eq}
use pyverge.Prelude.Dict.{Dict, get, set_item, is_some}
use pyverge.Prelude.Linear.{Linear, linear_text}
use pyverge.Prelude.Sorted.{sorted}
use pyverge.Prelude.Groups.{contains, add, or_empty}
use pyverge.Errors.{
  Outcome, ok, err, Fault, catalog_error, model_not_found, migration_not_found,
  migration_path_error, index_error, ◌>>=◌,
}
use pyverge.Identity.{
  NodeId, NodeEntry, EdgeId, Descriptor, ModelRef, is_model, default_discriminator,
}
use pyverge.Identity.Order.{linear_node, linear_edge, eq_node, eq_edge, eq_ref}
use pyverge.Backend
use pyverge.Backend.{
  IndexedBackend, nodes_for_kind, edges_for_kind, edges_between, is_executable, incident, outgoing,
  index_of,
}

pub record Revision : Type 0 where
  pub version_strategy : Text
  pub versions : Dict Text (List Text)
  pub content_digest : Text

pub record MigrationGraph (V : Type 0) : Type 0 where
  pub backend : IndexedBackend V
  pub revision : Revision
  pub manifest_digest : Text

abbrev pub or_raise : {A : Type 0} → Fault → Option A → Outcome A
or_raise f none = err f
or_raise f (some a) = ok a

-- `lo + step`, for `step = 1 if up else -1`.
abbrev pub next_index : Bool → ℕ → ℕ
next_index true i = suc i
next_index false i = i - 1

-- `abs(lo - hi)`
abbrev pub distance : ℕ → ℕ → ℕ
distance lo hi = (lo - hi) + (hi - lo)

module _ {V : Type 0} where
  -- The nodes that carry a model.
  abbrev pub models_only : List (NodeEntry V) → List (NodeEntry V)
  models_only ns = keep_if is_model ns

  -- `versions[-1]` and `versions[0]`, or the CatalogError of an empty list.
  unfoldable pub last_version : List (NodeEntry V) → Outcome (NodeEntry V)
  last_version [] = err catalog_error
  last_version (n ∷ []) = ok n
  last_version (n ∷ m ∷ ns) = last_version (m ∷ ns)

  unfoldable pub first_version : List (NodeEntry V) → Outcome (NodeEntry V)
  first_version [] = err catalog_error
  first_version (n ∷ ns) = ok n

module _ {V : Type 0} ⦃o : Linear V⦄ where
  unfoldable pub kind_versions : MigrationGraph V → Text → List (NodeEntry V)
  unfolding nodes_for_kind is_model
  kind_versions g kind = models_only (nodes_for_kind g.backend kind)

  unfoldable pub find_entry : MigrationGraph V → NodeId V → Option (NodeEntry V)
  find_entry g key = get key g.backend.nodes_by_id

  -- The first edge of the pair that has the discriminator.
  first_with : Text → List (EdgeId V) → Option (EdgeId V)
  first_with d [] = none
  first_with d (e ∷ es) = if e.discriminator == d then some e else first_with d es

  -- `_find_edge`
  unfoldable pub find_edge : MigrationGraph V → NodeId V → NodeId V → Text → Outcome (EdgeId V)
  unfolding first_with
  find_edge g source target discriminator =
      or_raise migration_not_found
        (first_with discriminator (edges_between g.backend source target))

  -- `{node.id: index for index, node in enumerate(versions)}`, from an index on.
  unfoldable pub positions_from : ℕ → Dict (NodeId V) ℕ → List (NodeEntry V) → Dict (NodeId V) ℕ
  positions_from i d [] = d
  positions_from i d (n ∷ ns) = positions_from (suc i) (set_item n.id i d) ns

  -- The edge of one hop: a missing edge, or one that is not executable, is a MigrationPathError.
  abbrev pub hop_error : Outcome (EdgeId V) → Outcome (EdgeId V)
  hop_error (ok e) = ok e
  hop_error (err f) = err migration_path_error

  unfoldable pub hop : MigrationGraph V → Text → NodeEntry V → NodeEntry V → Outcome (EdgeId V)
  hop g discriminator current target = do
    edge ← hop_error (find_edge g current.id target.id discriminator)
    if is_executable g.backend edge then ok edge else err migration_path_error

  -- `while lo != hi`: `rounds` is the distance that is left.
  unfoldable pub walk :
      MigrationGraph V
      → Text
      → List (NodeEntry V)
      → Bool
      → (rounds lo : ℕ) → NodeEntry V
      → Outcome (List (EdgeId V))
  walk g discriminator versions up zero lo current = ok []
  walk g discriminator versions up (suc rounds) lo current = do
    target ← or_raise index_error (get_elem? versions (next_index up lo))
    edge ← hop g discriminator current target
    rest ← walk g discriminator versions up rounds (next_index up lo) target
    ok (edge ∷ rest)

  unfoldable pub edge_path :
      MigrationGraph V → NodeId V → NodeId V → Text → Outcome (List (EdgeId V))
  edge_path g from_version to_version discriminator =
      if not (text_eq from_version.kind to_version.kind) then err catalog_error else do
        let versions = kind_versions g from_version.kind
        let places = positions_from 0 [] versions
        lo ← or_raise migration_path_error (get from_version places)
        hi ← or_raise migration_path_error (get to_version places)
        if nat_eq lo hi then ok [] else do
          current ← or_raise index_error (get_elem? versions lo)
          walk g discriminator versions (ltb lo hi) (distance lo hi) lo current

  -- `migration_path`
  unfoldable pub migration_path :
      MigrationGraph V → NodeId V → NodeId V → Outcome (List (NodeId V × NodeId V))
  migration_path g from_version to_version = do
    edges ← edge_path g from_version to_version default_discriminator
    ok (map (λ e. (e.source, e.target)) edges)
