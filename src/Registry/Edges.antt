-- ===== src/Registry/Edges.antt =====
-- core/registry/memory.py: the edges of the registry, and how an edge entry is stored.
use pyverge.Prelude.{
  Bool, false, not, ◌&&◌, Option, none, some, List, [], ◌∷◌, ◌++◌, ◌==◌, if◌then◌else◌, any_of,
  keep_if, nat_eq,
}
use pyverge.Prelude.Text.{Text, text_eq, eq_text}
use pyverge.Prelude.Dict.{Dict, get, set_item, del_item, is_some}
use pyverge.Prelude.Linear.{Linear}
use pyverge.Prelude.Sorted.{bisect_left, insort_left, find_at, remove_at}
use pyverge.Prelude.Groups.{bucket}
use pyverge.Errors.{ok, err, migration_conflict, migration_not_found}
use pyverge.Identity.{NodeId, EdgeId}
use pyverge.Identity.Order.{linear_node, linear_edge, eq_node, eq_edge}
use pyverge.Graph.{distance}
use pyverge.Registry.{EdgeEntry, edge_id, edge_kind, Registry, Services, Call}
use pyverge.Registry.Health.{affected_by_edge_change, refresh_health}
use pyverge.Registry.Nodes.{node_id, is_version_edge, find_entry}

module _ {V M : Type 0} ⦃o : Linear V⦄ where
  -- The sets of edges at each node: an edge comes, or leaves and an empty set is deleted.
  unfoldable pub add_at :
      NodeId V
      → EdgeEntry V M
      → Dict (NodeId V) (List (EdgeEntry V M))
      → Dict (NodeId V) (List (EdgeEntry V M))
  unfolding bucket
  add_at n e d =
      let old = bucket n d in
      set_item n (if any_of (λ x. edge_id x == edge_id e) old then old else old ++ e ∷ []) d

  abbrev left_at :
      NodeId V
      → List (EdgeEntry V M)
      → Dict (NodeId V) (List (EdgeEntry V M))
      → Dict (NodeId V) (List (EdgeEntry V M))
  left_at n [] d = del_item n d
  left_at n (e ∷ es) d = set_item n (e ∷ es) d

  unfoldable pub discard_at :
      NodeId V
      → EdgeEntry V M
      → Dict (NodeId V) (List (EdgeEntry V M))
      → Dict (NodeId V) (List (EdgeEntry V M))
  discard_at n e d = elim (get n d) [
    | none ↦ d
    | some old ↦ left_at n (keep_if (λ x. not (edge_id x == edge_id e)) old) d
  ]

  -- `del self._migrations[kind]` of a list that has become empty.
  abbrev pub left_kind :
      Text
      → List (EdgeEntry V M)
      → Dict Text (List (EdgeEntry V M))
      → Dict Text (List (EdgeEntry V M))
  left_kind kind [] d = del_item kind d
  left_kind kind (e ∷ es) d = set_item kind (e ∷ es) d

abbrev put_digest :
    {V : Type 0} → Text → EdgeId V → Option (Dict Text (EdgeId V)) → Option (Dict Text (EdgeId V))
put_digest digest e none = none
put_digest digest e (some d) = some (set_item digest e d)

abbrev pub pop_digest :
    {V : Type 0} → Text → Option (Dict Text (EdgeId V)) → Option (Dict Text (EdgeId V))
pop_digest digest none = none
pop_digest digest (some d) = some (del_item digest d)

module _ {V M H I : Type 0} where
  abbrev pub with_edges :
      Dict Text (List (EdgeEntry V M))
      → Dict (NodeId V) (List (EdgeEntry V M))
      → Option (Dict Text (EdgeId V))
      → Registry V M H I
      → Registry V M H I
  with_edges migrations at_nodes digests r = record {
    namespace = r.namespace;
    reconstructs = r.reconstructs;
    digest_index = digests;
    by_versions = r.by_versions;
    by_kinds = r.by_kinds;
    by_models = r.by_models;
    migrations = migrations;
    edges_by_version = at_nodes;
    hooks = r.hooks;
    health = r.health;
  }

abbrev executable : {V M : Type 0} → Option (EdgeEntry V M) → Bool
executable none = false
executable (some e) = is_version_edge e

module _ {V M H I : Type 0} ⦃o : Linear V⦄ where
  unfoldable pub find_edge : Registry V M H I → EdgeEntry V M → Option (EdgeEntry V M)
  unfolding find_at bucket
  find_edge r key = find_at edge_id (bucket (edge_kind key) r.migrations) (edge_id key)

  unfoldable pub has_migration : Registry V M H I → EdgeEntry V M → Bool
  unfolding find_edge
  has_migration r key = executable (find_edge r key)

  -- The places where the endpoints stand, or would stand, among the entries of the kind.
  unfoldable pub is_adjacent : Registry V M H I → EdgeEntry V M → Bool
  unfolding bisect_left bucket
  is_adjacent r key =
      let entries = bucket (edge_kind key) r.by_kinds in
      nat_eq
        (distance (bisect_left node_id entries key.source.id)
          (bisect_left node_id entries key.target.id))
        1

  unfoldable pub touch_migrations : Text → Registry V M H I → Registry V M H I
  unfolding bucket
  touch_migrations kind r =
      with_edges (set_item kind (bucket kind r.migrations) r.migrations) r.edges_by_version
        r.digest_index r

  module _ (services : Services V M H I) where
    -- `_digest_index[edge.digest(hasher)] = edge_key`, of an executable edge.
    abbrev digests_with : EdgeEntry V M → Registry V M H I → Option (Dict Text (EdgeId V))
    digests_with e r =
        if is_version_edge e
        then put_digest (services.digest e) (edge_id e) r.digest_index
        else r.digest_index

    -- The edge is not there: no equal edge stands where it is inserted.
    unfoldable pub insert_edge :
        EdgeEntry V M → Registry V M H I → Call (Registry V M H I) (EdgeEntry V M)
    unfolding insort_left bucket add_at affected_by_edge_change refresh_health
    insert_edge e r =
        let inserted =
          with_edges
            (set_item (edge_kind e) (insort_left edge_id e (bucket (edge_kind e) r.migrations))
              r.migrations)
            (add_at e.target.id e (add_at e.source.id e r.edges_by_version)) (digests_with e r) r in
        (ok e, refresh_health services (affected_by_edge_change e) inserted)

    -- A key-only edge makes way for an executable one.
    unfoldable pub take_out : EdgeEntry V M → Registry V M H I → Registry V M H I
    unfolding remove_at bucket discard_at
    take_out existing r =
        with_edges
          (set_item (edge_kind existing)
            (remove_at edge_id (bucket (edge_kind existing) r.migrations) (edge_id existing))
            r.migrations)
          (discard_at existing.target.id existing
            (discard_at existing.source.id existing r.edges_by_version))
          r.digest_index r

    unfoldable pub meet_existing :
        EdgeEntry V M → EdgeEntry V M → Registry V M H I → Call (Registry V M H I) (EdgeEntry V M)
    unfolding insert_edge take_out
    meet_existing existing e r =
        if is_version_edge e && not (is_version_edge existing)
        then insert_edge e (take_out existing r)
        else if is_version_edge existing
            && is_version_edge e
            && not (text_eq (services.digest existing) (services.digest e))
        then (err migration_conflict, r)
        else (ok existing, r)

    -- From `paths = self._migrations[edge.kind]` on.
    unfoldable pub put_edge :
        EdgeEntry V M → Registry V M H I → Call (Registry V M H I) (EdgeEntry V M)
    unfolding find_edge meet_existing insert_edge touch_migrations
    put_edge e r =
        let touched = touch_migrations (edge_kind e) r in
        elim (find_edge touched e) [
          | none ↦ insert_edge e touched
          | some existing ↦ meet_existing existing e touched
        ]

    -- `store_migration(entry)` of an edge entry.
    unfoldable pub store_edge :
        EdgeEntry V M → Registry V M H I → Call (Registry V M H I) (EdgeEntry V M)
    unfolding put_edge find_entry
    store_edge e r =
        if is_version_edge e
          && not (is_some (find_entry r e.source.id) && is_some (find_entry r e.target.id))
        then (err migration_not_found, r)
        else put_edge e r
