-- ===== src/Backend.antt =====
-- core/graph/backend/indexed.py: the frozen indexes of a locked graph.
pub mod Indexes
pub mod Outgoing
use pyverge.Prelude.{
  ℕ, zero, suc, Bool, true, false, Option, none, some, List, [], ◌∷◌, ◌++◌, map, length,
  if◌then◌else◌, ◌==◌, Eq,
}
use pyverge.Prelude.Text.{Text, eq_text}
use pyverge.Prelude.Dict.{Dict, get, set_item, is_some}
use pyverge.Prelude.Linear.{Linear, linear_text, linear_pair, eq_of_linear}
use pyverge.Prelude.Sorted.{sorted}
use pyverge.Prelude.Groups.{bucket, append_to, group_by, index_by, contains, add}
use pyverge.Errors.{Outcome, ok, err, key_error}
use pyverge.Identity.{NodeId, NodeEntry, EdgeId, Descriptor, ModelRef, is_model}
use pyverge.Identity.Order.{linear_node, linear_edge, eq_node, eq_edge, eq_ref}

module _ {V : Type 0} ⦃o : Linear V⦄ where
  -- The pair `edge.key` as a dictionary key.
  instance abbrev pub eq_pair : Eq (NodeId V × NodeId V)
  eq_pair = eq_of_linear (linear_pair linear_node linear_node)

-- `self.edges_by_id[edge.id]`
abbrev or_key_error : {A : Type 0} → Option A → Outcome A
or_key_error none = err key_error
or_key_error (some a) = ok a

-- `edge.key`
abbrev pub pair_of : {V : Type 0} → EdgeId V → NodeId V × NodeId V
pair_of e = (e.source, e.target)

-- Digests, metadata and hook specifications are kept as they are given.
pub record IndexedBackend (V : Type 0) : Type 0 where
  pub name : Text
  pub namespace : Text
  pub nodes : List (NodeEntry V)
  pub edges : List (EdgeId V)
  pub nodes_by_id : Dict (NodeId V) (NodeEntry V)
  pub edges_by_id : Dict (EdgeId V) (EdgeId V)
  pub nodes_by_kind : Dict Text (List (NodeEntry V))
  pub edges_by_kind : Dict Text (List (EdgeId V))
  pub edges_by_endpoint : Dict (NodeId V) (List (EdgeId V))
  pub outgoing_by_node : Dict (NodeId V) (List (EdgeId V))
  pub incoming_by_node : Dict (NodeId V) (List (EdgeId V))
  pub edges_by_pair : Dict (NodeId V × NodeId V) (List (EdgeId V))
  pub node_positions : Dict (NodeId V) ℕ
  pub edge_ids : List (EdgeId V)
  pub models_by_ref : Dict ModelRef (NodeEntry V)
  pub executable_edge_ids : List (EdgeId V)
  pub edge_metadata : Dict (EdgeId V) (Dict Text Text)
  pub digests : Dict Text (EdgeId V)
  pub node_digests : Dict (NodeId V) Text
  pub edge_digests : Dict (EdgeId V) Text
  pub hook_specs : Dict (EdgeId V) (List Text)

-- The keyword arguments of `build`.
pub record BuildOptions (V : Type 0) : Type 0 where
  pub name : Text
  pub namespace : Text
  pub models_by_ref : Option (Dict ModelRef (NodeEntry V))
  pub executable_edge_ids : List (EdgeId V)
  pub edge_metadata : Dict (EdgeId V) (Dict Text Text)
  pub digests : Dict Text (EdgeId V)
  pub node_digests : Dict (NodeId V) Text
  pub edge_digests : Dict (EdgeId V) Text
  pub hook_specs : Dict (EdgeId V) (List Text)

-- `a or b`, on texts.
abbrev or_text : Text → Text → Text
or_text [] b = b
or_text (c ∷ cs) b = c ∷ cs

module _ {V : Type 0} where
  first_edge_namespace : List (EdgeId V) → Text
  first_edge_namespace [] = []
  first_edge_namespace (e ∷ es) = e.source.namespace

  first_namespace : List (NodeEntry V) → List (EdgeId V) → Text
  unfolding first_edge_namespace
  first_namespace [] es = first_edge_namespace es
  first_namespace (n ∷ ns) es = n.id.namespace

  -- `for node in ordered_nodes: if node.is_model: resolved_models[node.modelref] = node`
  add_model :
      Option (Descriptor V)
      → NodeEntry V
      → Dict ModelRef (NodeEntry V)
      → Dict ModelRef (NodeEntry V)
  add_model none n d = d
  add_model (some m) n d = set_item m.ref n d

  collect_models : Dict ModelRef (NodeEntry V) → List (NodeEntry V) → Dict ModelRef (NodeEntry V)
  unfolding add_model
  collect_models d [] = d
  collect_models d (n ∷ ns) = collect_models (add_model n.descriptor n d) ns

  resolve_models :
      Option (Dict ModelRef (NodeEntry V)) → List (NodeEntry V) → Dict ModelRef (NodeEntry V)
  unfolding collect_models
  resolve_models (some d) ns = d
  resolve_models none ns = collect_models [] ns

module _ {V : Type 0} ⦃o : Linear V⦄ where
  -- `node_positions[entry.id] = len(bucket)`, for the bucket of its kind before it is appended.
  unfoldable pub positions :
      Dict Text (List (NodeEntry V)) → Dict (NodeId V) ℕ → List (NodeEntry V) → Dict (NodeId V) ℕ
  positions kinds d [] = d
  positions kinds d (n ∷ ns) =
      positions (append_to n.id.kind n kinds) (set_item n.id (length (bucket n.id.kind kinds)) d) ns

  -- `edges_by_endpoint.setdefault(endpoint, set()).add(edge)`
  abbrev pub add_edge :
      NodeId V → EdgeId V → Dict (NodeId V) (List (EdgeId V)) → Dict (NodeId V) (List (EdgeId V))
  add_edge n e d = set_item n (add e (bucket n d)) d

  unfoldable pub at_ends :
      EdgeId V
      → List (NodeId V)
      → Dict (NodeId V) (List (EdgeId V))
      → Dict (NodeId V) (List (EdgeId V))
  at_ends e [] d = d
  at_ends e (n ∷ ns) d = at_ends e ns (add_edge n e d)

  -- The sets of edges at the nodes that `ends` names for each edge.
  unfoldable pub edge_sets :
      (EdgeId V → List (NodeId V))
      → Dict (NodeId V) (List (EdgeId V))
      → List (EdgeId V)
      → Dict (NodeId V) (List (EdgeId V))
  unfolding at_ends
  edge_sets ends d [] = d
  edge_sets ends d (e ∷ es) = edge_sets ends (at_ends e (ends e) d) es

  unfoldable pub add_all : List (EdgeId V) → List (EdgeId V) → List (EdgeId V)
  add_all s [] = s
  add_all s (e ∷ es) = add_all (add e s) es

  unfoldable pub build : List (NodeEntry V) → List (EdgeId V) → BuildOptions V → IndexedBackend V
  unfolding first_namespace resolve_models edge_sets add_all
  build nodes edges options =
      let ordered_nodes = sorted (λ (n : NodeEntry V). n.id) nodes in
      let ordered_edges = sorted (λ (e : EdgeId V). e) edges in
      let namespace = or_text options.namespace (first_namespace ordered_nodes ordered_edges) in
      record {
        name = or_text options.name namespace;
        namespace = namespace;
        nodes = ordered_nodes;
        edges = ordered_edges;
        nodes_by_id = index_by (λ n. n.id) [] ordered_nodes;
        edges_by_id = index_by (λ e. e) [] ordered_edges;
        nodes_by_kind = group_by (λ n. n.id.kind) [] ordered_nodes;
        edges_by_kind = group_by (λ e. e.source.kind) [] ordered_edges;
        edges_by_endpoint = edge_sets (λ e. e.source ∷ e.target ∷ []) [] ordered_edges;
        outgoing_by_node = edge_sets (λ e. e.source ∷ []) [] ordered_edges;
        incoming_by_node = edge_sets (λ e. e.target ∷ []) [] ordered_edges;
        edges_by_pair = group_by (λ e. pair_of e) [] ordered_edges;
        node_positions = positions [] [] ordered_nodes;
        edge_ids = add_all [] ordered_edges;
        models_by_ref = resolve_models options.models_by_ref ordered_nodes;
        executable_edge_ids = add_all [] options.executable_edge_ids;
        edge_metadata = options.edge_metadata;
        digests = options.digests;
        node_digests = options.node_digests;
        edge_digests = options.edge_digests;
        hook_specs = sorted (λ (item : EdgeId V × List Text). item.0) options.hook_specs;
      }

  unfoldable pub nodes_for_kind : IndexedBackend V → Text → List (NodeEntry V)
  nodes_for_kind b kind = bucket kind b.nodes_by_kind

  unfoldable pub edges_for_kind : IndexedBackend V → Text → List (EdgeId V)
  edges_for_kind b kind = bucket kind b.edges_by_kind

  unfoldable pub incident : IndexedBackend V → NodeId V → List (EdgeId V)
  incident b node = bucket node b.edges_by_endpoint

  unfoldable pub outgoing : IndexedBackend V → NodeId V → List (EdgeId V)
  outgoing b node = bucket node b.outgoing_by_node

  unfoldable pub incoming : IndexedBackend V → NodeId V → List (EdgeId V)
  incoming b node = bucket node b.incoming_by_node

  unfoldable pub edges_between : IndexedBackend V → NodeId V → NodeId V → List (EdgeId V)
  edges_between b source target = bucket (source, target) b.edges_by_pair

  unfoldable pub has_node : IndexedBackend V → NodeId V → Bool
  has_node b node = is_some (get node b.nodes_by_id)

  unfoldable pub has_edge : IndexedBackend V → EdgeId V → Bool
  has_edge b edge = contains edge b.edge_ids

  unfoldable pub is_executable : IndexedBackend V → EdgeId V → Bool
  is_executable b edge = contains edge b.executable_edge_ids

  unfoldable pub index_of : IndexedBackend V → NodeId V → Option ℕ
  index_of b node = get node b.node_positions

  unfoldable pub edge_key : IndexedBackend V → EdgeId V → Outcome (EdgeId V)
  edge_key b edge = or_key_error (get edge b.edges_by_id)
