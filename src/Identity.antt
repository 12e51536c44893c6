-- ===== src/Identity.antt =====
-- core/versioning/identity/nodes.py and edges.py: the identities of nodes and edges, the entries
-- that carry them, and how they compare. One version strategy, `V`, is fixed: semver or dates.
pub mod Order
pub mod Mixed
mod Tests
use pyverge.Prelude.{
  ℕ, Bool, true, false, Option, none, some, List, [], ◌∷◌, ◌≡◌, Ordering, if◌then◌else◌, not, ◌&&◌,
  ◌==◌,
}
use pyverge.Prelude.Text.{Text, codes, text_eq, eq_text}
use pyverge.Prelude.Linear.{Linear, lex, cmp_text, linear_text}
use pyverge.Prelude.Effects.{Result, ok, raised, exception, plain}

pub record NodeId (V : Type 0) : Type 0 where
  pub namespace : Text
  pub kind : Text
  pub version : V

-- `NodeId.__post_init__`: an empty namespace is refused.
unfoldable pub make_node : {V : Type 0} → Text → Text → V → Result (NodeId V)
make_node [] kind version = raised (exception plain (codes "NodeId namespace must be non-empty"))
make_node (c ∷ cs) kind version = ok (record { namespace = c ∷ cs; kind = kind; version = version })

abbrev pub identity : {V : Type 0} → NodeId V → Text × (Text × V)
identity n = (n.namespace, (n.kind, n.version))

-- A model reference; its metadata takes no part in comparisons.
pub record ModelRef : Type 0 where
  pub provider_id : Text
  pub entity_id : Text

-- What a hydrated entry adds to its key: `descriptor.ref`, `.fields` and `.references`.
pub record Descriptor (V : Type 0) : Type 0 where
  pub ref : ModelRef
  pub fields : List Text
  pub references : List (NodeId V)

-- `VersionKey`, and with a descriptor `VersionNode`.
pub record NodeEntry (V : Type 0) : Type 0 where
  pub id : NodeId V
  pub descriptor : Option (Descriptor V)

abbrev has_descriptor : {V : Type 0} → Option (Descriptor V) → Bool
has_descriptor none = false
has_descriptor (some d) = true

unfoldable pub is_model : {V : Type 0} → NodeEntry V → Bool
is_model e = has_descriptor e.descriptor

pub record EdgeId (V : Type 0) : Type 0 where
  pub source : NodeId V
  pub target : NodeId V
  pub discriminator : Text

abbrev pub default_discriminator : Text
default_discriminator = codes "default"

-- `EdgeId.__post_init__`
unfoldable pub make_edge : {V : Type 0} → NodeId V → NodeId V → Text → Result (EdgeId V)
make_edge source target [] =
    raised (exception plain (codes "EdgeId discriminator must be a non-empty string"))
make_edge source target (c ∷ cs) =
    if not (text_eq source.namespace target.namespace)
    then raised (exception plain (codes "Cross-namespace edges are forbidden"))
    else if not (text_eq source.kind target.kind)
    then raised (exception plain (codes "Cross-kind edges are forbidden"))
    else ok (record { source = source; target = target; discriminator = c ∷ cs })
