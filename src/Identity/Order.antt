-- ===== src/Identity/Order.antt =====
-- The comparisons of identities are linear orders, so equal identities are interchangeable.
use pyverge.Prelude.{◌≡◌, Eq}
use pyverge.Prelude.Text.{Text}
use pyverge.Prelude.Linear.{Linear, linear_text, linear_pair, linear_by, eq_of_linear}
use pyverge.Identity.{NodeId, identity, EdgeId, ModelRef}

abbrev pub edge_identity : {V : Type 0} → EdgeId V → NodeId V × (NodeId V × Text)
edge_identity e = (e.source, (e.target, e.discriminator))

module _ {V : Type 0} where
  pub identity_faithful : (a b : NodeId V) → identity a ≡ identity b → a ≡ b
  identity_faithful a b h =
      λ i. record { namespace = (h i).0; kind = (h i).1.0; version = (h i).1.1 }

  pub edge_identity_faithful : (a b : EdgeId V) → edge_identity a ≡ edge_identity b → a ≡ b
  edge_identity_faithful a b h =
      λ i. record { source = (h i).0; target = (h i).1.0; discriminator = (h i).1.1 }

module _ {V : Type 0} ⦃o : Linear V⦄ where
  -- `NodeId.__lt__`, `__eq__` and `__gt__`: the tuples of namespace, kind and version.
  instance abbrev pub linear_node : Linear (NodeId V)
  linear_node =
      linear_by (linear_pair linear_text (linear_pair linear_text o)) identity identity_faithful

  -- `EdgeId.__lt__`, `__eq__` and `__gt__`: source, target and discriminator.
  instance abbrev pub linear_edge : Linear (EdgeId V)
  linear_edge =
      linear_by (linear_pair linear_node (linear_pair linear_node linear_text)) edge_identity
        edge_identity_faithful

  instance abbrev pub eq_node : Eq (NodeId V)
  eq_node = eq_of_linear linear_node

  instance abbrev pub eq_edge : Eq (EdgeId V)
  eq_edge = eq_of_linear linear_edge

-- `ModelRef.__eq__`, of the frozen dataclass, without its metadata.
abbrev pub ref_identity : ModelRef → Text × Text
ref_identity r = (r.provider_id, r.entity_id)

pub ref_identity_faithful : (a b : ModelRef) → ref_identity a ≡ ref_identity b → a ≡ b
ref_identity_faithful a b h = λ i. record { provider_id = (h i).0; entity_id = (h i).1 }

instance abbrev pub eq_ref : Eq ModelRef
eq_ref =
    eq_of_linear
      (linear_by (linear_pair linear_text linear_text) ref_identity ref_identity_faithful)
