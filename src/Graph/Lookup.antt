-- ===== src/Graph/Lookup.antt =====
-- core/graph/graph.py: the lookups of a locked graph. A key is given by its identity; a set is a
-- list without repetition.
use pyverge.Prelude.{
  ℕ, suc, ◌-◌, Bool, true, false, not, ◌&&◌, ◌||◌, Option, none, some, List, [], ◌∷◌, length, map,
  keep_if, if◌then◌else◌, ◌==◌, nat_eq, ltb, Eq,
}
use pyverge.Prelude.Text.{Text, eq_text, text_eq, codes}
use pyverge.Prelude.Dict.{Dict, get, is_some}
use pyverge.Prelude.Linear.{Linear, linear_text}
use pyverge.Prelude.Sorted.{sorted}
use pyverge.Prelude.Groups.{add, bucket}
use pyverge.Errors.{Outcome, model_not_found, migration_not_found}
use pyverge.Identity.{NodeId, NodeEntry, EdgeId, Descriptor, ModelRef, is_model}
use pyverge.Identity.Order.{linear_node, linear_edge, eq_node, eq_edge, eq_ref}
use pyverge.Backend.{nodes_for_kind, edges_for_kind, is_executable, incident, index_of}
use pyverge.Graph.{
  MigrationGraph, or_raise, models_only, last_version, first_version, kind_versions, find_entry,
  distance,
}

-- The keys of a dictionary, and the union of two sets.
abbrev keys {ℓ} : {K A : Type ℓ} → Dict K A → List K
keys d = map (λ (p : _ × _). p.0) d

add_texts : List Text → List Text → List Text
add_texts s [] = s
add_texts s (t ∷ ts) = add_texts (add t s) ts

abbrev some_items {ℓ} : {A : Type ℓ} → List A → Bool
some_items [] = false
some_items (x ∷ xs) = true

-- `flag is not None and value != flag`
abbrev excluded : Option Bool → Bool → Bool
excluded none value = false
excluded (some true) value = not value
excluded (some false) value = value

abbrev other_origin : Option Text → Option Text → Bool
other_origin none found = false
other_origin (some origin) none = true
other_origin (some origin) (some found) = not (text_eq found origin)

abbrev pub found_at : {A : Type 0} → ⦃q : Eq A⦄ → ℕ → A → List A → Option ℕ
found_at i a [] = none
found_at i a (x ∷ xs) = if x == a then some i else found_at (suc i) a xs

abbrev pub is_inner : ℕ → Option ℕ → Bool
is_inner count none = false
is_inner count (some idx) = ltb 2 count && (ltb 0 idx || ltb idx (count - 1))

abbrev one_apart : Option ℕ → Option ℕ → Bool
one_apart (some i) (some j) = nat_eq (distance i j) 1
one_apart (some i) none = false
one_apart none j = false

module _ {V : Type 0} where
  abbrev pub if_model : Option (NodeEntry V) → Option (NodeEntry V)
  if_model none = none
  if_model (some n) = elim n.descriptor [ none ↦ none | some m ↦ some n ]

  -- `node.modelref for node in nodes if node.modelref is not None`, as a set.
  add_ref : Option (Descriptor V) → List ModelRef → List ModelRef
  add_ref none s = s
  add_ref (some m) s = add m.ref s

  refs_of : List ModelRef → List (NodeEntry V) → List ModelRef
  unfolding add_ref
  refs_of s [] = s
  refs_of s (n ∷ ns) = refs_of (add_ref n.descriptor s) ns

module _ {V : Type 0} ⦃o : Linear V⦄ (g : MigrationGraph V) where
  unfoldable pub versions : List (NodeEntry V)
  unfolding is_model
  versions = models_only g.backend.nodes

  unfoldable pub versions_for : Option Text → List (NodeEntry V)
  unfolding versions kind_versions
  versions_for none = versions
  versions_for (some kind) = kind_versions g kind

  unfoldable pub kinds : List Text
  unfolding add_texts
  kinds =
      sorted (λ (t : Text). t)
        (add_texts (add_texts [] (keys g.backend.nodes_by_kind)) (keys g.backend.edges_by_kind))

  unfoldable pub entities : List Text
  unfolding kinds nodes_for_kind
  entities = keep_if (λ kind. some_items (nodes_for_kind g.backend kind)) kinds

  unfoldable pub models : Option Text → List ModelRef
  unfolding refs_of nodes_for_kind
  models none = keys g.backend.models_by_ref
  models (some kind) = refs_of [] (nodes_for_kind g.backend kind)

  unfoldable pub kind_entries : Text → List (NodeEntry V)
  unfolding nodes_for_kind
  kind_entries kind = nodes_for_kind g.backend kind

  unfoldable pub has_entry : NodeId V → Bool
  unfolding find_entry
  has_entry key = is_some (find_entry g key)

  unfoldable pub get_entry : NodeId V → Outcome (NodeEntry V)
  unfolding find_entry
  get_entry key = or_raise model_not_found (find_entry g key)

  unfoldable pub find_model : NodeId V → Option (NodeEntry V)
  unfolding find_entry
  find_model key = if_model (find_entry g key)

  unfoldable pub has_model : NodeId V → Bool
  unfolding find_model
  has_model key = is_some (find_model key)

  unfoldable pub get_model : NodeId V → Outcome (NodeEntry V)
  unfolding find_model
  get_model key = or_raise model_not_found (find_model key)

  unfoldable pub get_model_by_ref : ModelRef → Outcome (NodeEntry V)
  get_model_by_ref ref = or_raise model_not_found (get ref g.backend.models_by_ref)

  unfoldable pub latest : Text → Outcome (NodeEntry V)
  unfolding kind_versions last_version
  latest kind = last_version (kind_versions g kind)

  unfoldable pub earliest : Text → Outcome (NodeEntry V)
  unfolding kind_versions first_version
  earliest kind = first_version (kind_versions g kind)

  unfoldable pub latest_version : Outcome (NodeEntry V)
  unfolding versions last_version
  latest_version = last_version versions

  unfoldable pub migrations : Text → List (EdgeId V)
  unfolding edges_for_kind is_executable
  migrations kind = keep_if (λ e. is_executable g.backend e) (edges_for_kind g.backend kind)

  unfoldable pub edges : Text → List (EdgeId V)
  unfolding edges_for_kind
  edges kind = edges_for_kind g.backend kind

  unfoldable pub migrations_of : NodeId V → List (EdgeId V)
  unfolding incident is_executable
  migrations_of key = keep_if (λ e. is_executable g.backend e) (incident g.backend key)

  unfoldable pub edges_of : NodeId V → List (EdgeId V)
  unfolding incident
  edges_of key = incident g.backend key

  unfoldable pub node_entries : (full connected orphaned : Option Bool) → List (NodeEntry V)
  unfolding incident is_model
  node_entries full connected orphaned =
      keep_if
        (λ n.
          let is_connected = some_items (incident g.backend n.id) in
          not (excluded full (is_model n))
          && (not (excluded connected is_connected) && not (excluded orphaned (not is_connected))))
        g.backend.nodes

  abbrev edges_for : Option Text → List (EdgeId V)
  edges_for none = g.backend.edges
  edges_for (some kind) = edges_for_kind g.backend kind

  unfoldable pub edge_entries : Option Text → Option Bool → Option Text → List (EdgeId V)
  unfolding edges_for_kind is_executable
  edge_entries kind executable origin =
      keep_if
        (λ e.
          not (excluded executable (is_executable g.backend e))
          && not (other_origin origin (get (codes "origin") (bucket e g.backend.edge_metadata))))
        (edges_for kind)

  abbrev if_executable : Option (EdgeId V) → Option (EdgeId V)
  if_executable none = none
  if_executable (some e) = if is_executable g.backend e then some e else none

  unfoldable pub has_migration : EdgeId V → Bool
  unfolding is_executable
  has_migration key = is_some (if_executable (get key g.backend.edges_by_id))

  unfoldable pub get_edge : EdgeId V → Outcome (EdgeId V)
  get_edge key = or_raise migration_not_found (get key g.backend.edges_by_id)

  -- `get_migration` and `get_migration_by_edge`
  unfoldable pub get_migration : EdgeId V → Outcome (EdgeId V)
  unfolding is_executable
  get_migration key = or_raise migration_not_found (if_executable (get key g.backend.edges_by_id))

  unfoldable pub is_adjacent : (source target : NodeId V) → Bool
  unfolding index_of
  is_adjacent source target = one_apart (index_of g.backend source) (index_of g.backend target)

  unfoldable pub is_critical_edge : EdgeId V → Bool
  unfolding edges_for_kind
  is_critical_edge key =
      let edges = edges_for_kind g.backend key.source.kind in
      is_inner (length edges) (found_at 0 key edges)

  unfoldable pub find_edge_by_digest : Text → Option (EdgeId V)
  find_edge_by_digest value = elim (get value g.backend.digests) [
    | none ↦ none
    | some id ↦ get id g.backend.edges_by_id
  ]
