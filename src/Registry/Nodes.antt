-- ===== src/Registry/Nodes.antt =====
-- core/registry/memory.py: the entries of the registry: lookups, insertion, reconciliation,
-- hydration and removal. A call gives its result or its exception, and the registry it leaves.
use pyverge.Prelude.{
  ℕ, Bool, true, false, not, Option, none, some, List, [], ◌∷◌, if◌then◌else◌, length, ltb, keep_if,
}
use pyverge.Prelude.Text.{Text, eq_text}
use pyverge.Prelude.Dict.{Dict, get, set_item, del_item, is_some}
use pyverge.Prelude.Linear.{Linear}
use pyverge.Prelude.Sorted.{bisect_left, insort_left, find_at, remove_at, delete_at}
use pyverge.Prelude.Groups.{bucket, contains}
use pyverge.Errors.{
  ok, err, model_already_registered, model_conflict, catalog_error, model_not_found, index_error,
  type_error,
}
use pyverge.Identity.{NodeId, NodeEntry, Descriptor, ModelRef, is_model}
use pyverge.Identity.Order.{linear_node, eq_node, eq_ref}
use pyverge.Registry.{EdgeEntry, node, Registry, Services, Call}
use pyverge.Registry.Health.{
  affected_by_node_change, refresh_health, rebuild_health, drop_entity, discard_entity,
}

abbrev pub node_id : {V : Type 0} → NodeEntry V → NodeId V
node_id n = n.id

-- `isinstance(edge, VersionEdge)`
abbrev pub is_version_edge : {V M : Type 0} → EdgeEntry V M → Bool
is_version_edge e = is_some e.migration

module _ {V M H I : Type 0} where
  abbrev pub with_nodes :
      List (NodeEntry V)
      → Dict Text (List (NodeEntry V))
      → Dict ModelRef (NodeEntry V)
      → Registry V M H I
      → Registry V M H I
  with_nodes versions kinds models r = record {
    namespace = r.namespace;
    reconstructs = r.reconstructs;
    digest_index = r.digest_index;
    by_versions = versions;
    by_kinds = kinds;
    by_models = models;
    migrations = r.migrations;
    edges_by_version = r.edges_by_version;
    hooks = r.hooks;
    health = r.health;
  }

-- The models by their references, after an entry comes or goes.
abbrev pub add_model :
    {V : Type 0}
    → NodeEntry V
    → Option (Descriptor V)
    → Dict ModelRef (NodeEntry V)
    → Dict ModelRef (NodeEntry V)
add_model n none d = d
add_model n (some m) d = set_item m.ref n d

abbrev pub pop_model :
    {V : Type 0} → Option (Descriptor V) → Dict ModelRef (NodeEntry V) → Dict ModelRef (NodeEntry V)
pop_model none d = d
pop_model (some m) d = del_item m.ref d

-- `if existing := ...` of a model only.
abbrev pub only_model : {V : Type 0} → Option (NodeEntry V) → Option (NodeEntry V)
only_model none = none
only_model (some n) = if is_model n then some n else none

-- `entry.fields`, none of a key-only entry.
abbrev fields_of : {V : Type 0} → Option (Descriptor V) → List Text
fields_of none = []
fields_of (some d) = d.fields

-- Equality of two `frozenset`s of field names.
covers : List Text → List Text → Bool
covers [] ts = true
covers (s ∷ ss) ts = if contains s ts then covers ss ts else false

unfoldable pub same_fields : {V : Type 0} → NodeEntry V → NodeEntry V → Bool
unfolding covers
same_fields n m =
    let a = fields_of n.descriptor in
    let b = fields_of m.descriptor in if covers a b then covers b a else false

-- `del items[index]`
abbrev pub deleted : {A : Type 0} → ℕ → List A → Option (List A)
deleted i items = if ltb i (length items) then some (delete_at i items) else none

module _ {V M H I : Type 0} ⦃o : Linear V⦄ where
  unfoldable pub find_entry : Registry V M H I → NodeId V → Option (NodeEntry V)
  unfolding find_at
  find_entry r key = find_at node_id r.by_versions key

  unfoldable pub find_model : Registry V M H I → NodeId V → Option (NodeEntry V)
  unfolding find_entry
  find_model r key = only_model (find_entry r key)

  unfoldable pub kind_versions : Registry V M H I → Text → List (NodeEntry V)
  unfolding bucket is_model
  kind_versions r kind = keep_if is_model (bucket kind r.by_kinds)

  unfoldable pub migrations_of : Registry V M H I → NodeId V → List (EdgeEntry V M)
  unfolding bucket
  migrations_of r key = keep_if is_version_edge (bucket key r.edges_by_version)

  -- `self._by_kinds[key.kind]` makes an empty list of a kind that is not there.
  unfoldable pub touch_kind : Text → Registry V M H I → Registry V M H I
  unfolding bucket
  touch_kind kind r =
      with_nodes r.by_versions (set_item kind (bucket kind r.by_kinds) r.by_kinds) r.by_models r

  module _ (services : Services V M H I) where
    unfoldable pub store : NodeEntry V → Registry V M H I → Call (Registry V M H I) (NodeEntry V)
    unfolding find_entry insort_left bucket refresh_health affected_by_node_change
    store entry r =
        if is_some (find_entry r entry.id)
        then (err model_already_registered, r)
        else let stored =
            with_nodes (insort_left node_id entry r.by_versions)
              (set_item entry.id.kind (insort_left node_id entry (bucket entry.id.kind r.by_kinds))
                r.by_kinds)
              (add_model entry entry.descriptor r.by_models) r in
          (ok entry, refresh_health services (affected_by_node_change entry stored) stored)

    unfoldable pub remove_entry : NodeEntry V → Registry V M H I → Registry V M H I
    unfolding remove_at bucket affected_by_node_change drop_entity refresh_health discard_entity
    remove_entry entry r =
        let affected = affected_by_node_change entry r in
        let removed =
          with_nodes (remove_at node_id r.by_versions entry.id)
            (set_item entry.id.kind (remove_at node_id (bucket entry.id.kind r.by_kinds) entry.id)
              r.by_kinds)
            (pop_model entry.descriptor r.by_models) r in
        refresh_health services (discard_entity (node entry) affected)
          (drop_entity (node entry) removed)

    -- `entry.reconcile(existing)`: a key keeps what exists, and so does a model with the same fields.
    unfoldable pub reconcile_with :
        NodeEntry V → NodeEntry V → Registry V M H I → Call (Registry V M H I) (NodeEntry V)
    unfolding is_model same_fields
    reconcile_with existing entry r =
        if not (is_model entry)
        then (ok existing, r)
        else if not (is_model existing)
        then (err catalog_error, r)
        else if same_fields entry existing
        then (ok existing, r)
        else (err model_conflict, r)

    unfoldable pub reconcile :
        NodeEntry V → Registry V M H I → Call (Registry V M H I) (NodeEntry V)
    unfolding find_entry reconcile_with store
    reconcile entry r = elim (find_entry r entry.id) [
      | none ↦ store entry r
      | some existing ↦ reconcile_with existing entry r
    ]

    unfoldable pub hydrate : NodeEntry V → Registry V M H I → Call (Registry V M H I) (NodeEntry V)
    unfolding find_entry reconcile store remove_entry is_model
    hydrate entry r =
        if not (is_model entry) then (err type_error, r) else elim (find_entry r entry.id) [
          | none ↦ store entry r
          | some existing ↦
              if is_model existing then reconcile entry r else store entry (remove_entry existing r)
        ]

    unfoldable pub remove_at_kind :
        NodeId V
        → NodeEntry V
        → Option (List (NodeEntry V))
        → Registry V M H I
        → Call (Registry V M H I) Unit
    unfolding remove_at affected_by_node_change drop_entity refresh_health discard_entity
    remove_at_kind key version none r = (err index_error, r)
    remove_at_kind key version (some left) r =
        let affected = affected_by_node_change version r in
        let removed =
          with_nodes (remove_at node_id r.by_versions key) (set_item key.kind left r.by_kinds)
            (pop_model version.descriptor r.by_models) r in
        (
          ok tt,
          refresh_health services (discard_entity (node version) affected)
              (drop_entity (node version) removed),
        )

    unfoldable pub remove_found :
        NodeId V → Option (NodeEntry V) → Registry V M H I → Call (Registry V M H I) Unit
    unfolding migrations_of remove_at_kind bisect_left bucket
    remove_found key none r = (err catalog_error, r)
    remove_found key (some version) r = elim (migrations_of r key) [
      | [] ↦
          let entries = bucket key.kind r.by_kinds in
          remove_at_kind key version (deleted (bisect_left node_id entries key) entries) r
      | e ∷ es ↦ (err catalog_error, r)
    ]

    unfoldable pub remove_model : NodeId V → Registry V M H I → Call (Registry V M H I) Unit
    unfolding find_entry remove_found touch_kind
    remove_model key r = remove_found key (find_entry r key) (touch_kind key.kind r)

    unfoldable pub remove_model_by_ref : ModelRef → Registry V M H I → Call (Registry V M H I) Unit
    unfolding remove_model
    remove_model_by_ref ref r = elim (get ref r.by_models) [
      | none ↦ (err model_not_found, r)
      | some n ↦ remove_model n.id r
    ]

    unfoldable pub clear_models : Registry V M H I → Call (Registry V M H I) Unit
    unfolding rebuild_health
    clear_models r = elim r.migrations [
      | [] ↦ (ok tt, rebuild_health services (with_nodes [] [] [] r))
      | m ∷ ms ↦ (err catalog_error, r)
    ]
