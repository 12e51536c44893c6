-- ===== src/Registry.antt =====
-- core/registry/memory.py: the state of the mutable registry, and its cached health. The linters
-- are functions of the registry and an entity; the hooks and the executable parts of edges are
-- kept as they are given.
pub mod Health
pub mod Nodes
pub mod Edges
pub mod Hooks
pub mod Requests
pub mod Kinds
pub mod Lookup
pub mod Entries
pub mod Invariant
pub mod Hydration
pub mod Removal
pub mod SideEffects
pub mod Preserved
pub mod Commands
pub mod Reachable
mod Tests
use pyverge.Prelude.{
  ℕ, Bool, true, false, Option, none, some, List, [], ◌∷◌, ◌++◌, Eq, ◌==◌, if◌then◌else◌, ◌≡◌, ◌↔◌,
  refl, ap, arith,
}
use pyverge.Prelude.Text.{Text, eq_text}
use pyverge.Prelude.Dict.{Dict}
use pyverge.Prelude.Linear.{Linear}
use pyverge.Errors.{Outcome, err, ok, value_error, Fault}
use pyverge.Identity.{NodeId, NodeEntry, EdgeId, Descriptor, ModelRef}
use pyverge.Identity.Order.{linear_node, linear_edge, eq_node, eq_edge, eq_ref}

-- `EdgeKey`, and with a migration, `M`, `VersionEdge`. Its endpoints are entries.
pub record EdgeEntry (V M : Type 0) : Type 0 where
  pub source : NodeEntry V
  pub target : NodeEntry V
  pub discriminator : Text
  pub migration : Option M

module _ {V M : Type 0} where
  abbrev pub edge_id : EdgeEntry V M → EdgeId V
  edge_id e = record { source = e.source.id; target = e.target.id; discriminator = e.discriminator }

  abbrev pub edge_kind : EdgeEntry V M → Text
  edge_kind e = e.source.id.kind

-- What the health of the registry is about. Two entities are equal when their identities are.
pub data Entity (V M : Type 0) : Type 0 where
  node : NodeEntry V → Entity V M
  edge : EdgeEntry V M → Entity V M

pub data EntityKey (V : Type 0) : Type 0 where
  node_key : NodeId V → EntityKey V
  edge_key : EdgeId V → EntityKey V

abbrev pub described : {V : Type 0} → Option (Descriptor V) → List (NodeId V)
described none = []
described (some d) = d.references

module _ {V M : Type 0} where
  abbrev pub key_of : Entity V M → EntityKey V
  key_of (node n) = node_key n.id
  key_of (edge e) = edge_key (edge_id e)

  abbrev pub namespace_of : Entity V M → Text
  namespace_of (node n) = n.id.namespace
  namespace_of (edge e) = e.source.id.namespace

  -- `getattr(entity, "references", ())`
  abbrev pub references_of : Entity V M → List (NodeId V)
  references_of (node n) = described n.descriptor
  references_of (edge e) = []

module _ {V : Type 0} ⦃o : Linear V⦄ where
  abbrev pub same_key : EntityKey V → EntityKey V → Bool
  same_key (node_key n) (node_key m) = n == m
  same_key (node_key n) (edge_key e) = false
  same_key (edge_key e) (node_key n) = false
  same_key (edge_key e) (edge_key f) = e == f

  pub same_key_iff : (k j : EntityKey V) → (same_key k j ≡ true) ↔ (k ≡ j)
  same_key_iff (node_key n) (node_key m) =
      (λ h. ap node_key ((eq_node.same_iff n m).0 h), λ h. (eq_node.same_iff n m).1 cc)
  same_key_iff (node_key n) (edge_key e) = (λ h. cc, λ h. cc)
  same_key_iff (edge_key e) (node_key n) = (λ h. cc, λ h. cc)
  same_key_iff (edge_key e) (edge_key f) =
      (λ h. ap edge_key ((eq_edge.same_iff e f).0 h), λ h. (eq_edge.same_iff e f).1 cc)

  instance abbrev pub eq_key : Eq (EntityKey V)
  eq_key = record { same = same_key; same_iff = same_key_iff }

-- `_health_issues`, `_issues_by_namespace`, `_references_to` and `_references_by_entity`.
pub record HealthIndex (V M I : Type 0) : Type 0 where
  pub issues : Dict (EntityKey V) (List I)
  pub by_namespace : Dict Text (List (Entity V M))
  pub references_to : Dict (NodeId V) (List (Entity V M))
  pub references_by_entity : Dict (EntityKey V) (List (NodeId V))

abbrev pub no_health : {V M I : Type 0} → HealthIndex V M I
no_health = record { issues = []; by_namespace = []; references_to = []; references_by_entity = [] }

pub record Registry (V M H I : Type 0) : Type 0 where
  pub namespace : Text
  pub reconstructs : Bool
  pub digest_index : Option (Dict Text (EdgeId V))
  pub by_versions : List (NodeEntry V)
  pub by_kinds : Dict Text (List (NodeEntry V))
  pub by_models : Dict ModelRef (NodeEntry V)
  pub migrations : Dict Text (List (EdgeEntry V M))
  pub edges_by_version : Dict (NodeId V) (List (EdgeEntry V M))
  pub hooks : Dict (EdgeId V) (List H)
  pub health : HealthIndex V M I

-- What a call gives, and the state after it; a caller goes on only after a result.
abbrev pub Call : Type 0 → Type 0 → Type 0
Call R A = Outcome A × R

abbrev pub and_then : {R A B : Type 0} → Call R A → (A → R → Call R B) → Call R B
and_then (ok a, r) f = f a r
and_then (err e, r) f = (err e, r)

-- What the registry is given: how an executable edge is hashed, and its health rules.
pub record Services (V M H I : Type 0) : Type 0 where
  pub digest : EdgeEntry V M → Text
  pub linters : List (Registry V M H I → Entity V M → List I)

-- `Registry.__init__`
unfoldable pub init :
    {V M H I : Type 0} → Text → (reconstructs index_digests : Bool) → Outcome (Registry V M H I)
init [] reconstructs index_digests = err value_error
init (c ∷ cs) reconstructs index_digests = ok (record {
  namespace = c ∷ cs;
  reconstructs = reconstructs;
  digest_index = if index_digests then some [] else none;
  by_versions = [];
  by_kinds = [];
  by_models = [];
  migrations = [];
  edges_by_version = [];
  hooks = [];
  health = no_health;
})
