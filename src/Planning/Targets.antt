-- ===== src/Planning/Targets.antt =====
-- core/graph/planning/targets.py: version ranges, and target policies compiled to resolvers. How
-- texts are parsed to versions is given; a resolver that a client passes is a function, and is
-- used as it is.
use pyverge.Prelude.{
  Bool, true, false, not, Option, none, some, List, [], ◌∷◌, keep_if, if◌then◌else◌, ◌==◌,
}
use pyverge.Prelude.Text.{Text, codes, text_eq, eq_text}
use pyverge.Prelude.Dict.{Dict, get}
use pyverge.Prelude.Linear.{Linear, lt, eq}
use pyverge.Errors.{Outcome, ok, err, catalog_error, ◌>>=◌}
use pyverge.Identity.{NodeId, NodeEntry, ModelRef}
use pyverge.Identity.Order.{linear_node, eq_node}
use pyverge.Graph.{MigrationGraph, kind_versions, last_version}
use pyverge.Graph.Lookup.{latest, earliest, has_model, get_model, get_model_by_ref}

pub record VersionRange : Type 0 where
  pub gte : Option Text
  pub less : Option Text
  pub equal : Option Text

-- `TargetSpec`
pub data TargetSpec (V : Type 0) : Type 0 where
  skip to_latest to_earliest : TargetSpec V
  to_version : Text → TargetSpec V
  to_range : VersionRange → TargetSpec V
  to_model : ModelRef → TargetSpec V
  to_node : NodeEntry V → TargetSpec V

-- `TargetResolver`
abbrev pub Resolver : Type 0 → Type 0
Resolver V = NodeEntry V → Outcome (Option (NodeEntry V))

-- `TargetPolicy`: one target, one for each kind, or a resolver of the client's.
pub data TargetPolicy (V : Type 0) : Type 0 where
  one : TargetSpec V → TargetPolicy V
  for_kinds : Dict Text (TargetSpec V) → TargetPolicy V
  resolve_by : Resolver V → TargetPolicy V

-- A bound that is not set passes.
abbrev bounded : {V : Type 0} → (Text → Outcome V) → (V → Bool) → Option Text → Outcome Bool
bounded parse test none = ok true
bounded parse test (some t) = parse t >>= λ bound. ok (test bound)

abbrev pub if_ok : Outcome Bool → Outcome Bool → Outcome Bool
if_ok first rest = first >>= λ passed. if passed then rest else ok false

module _ {V : Type 0} ⦃o : Linear V⦄ (parse : Text → Outcome V) where
  unfoldable pub matches : VersionRange → V → Outcome Bool
  matches range version = elim range.equal [
    | some t ↦ parse t >>= λ equal. ok (eq version equal)
    | none ↦
        if_ok (bounded parse (λ bound. not (lt version bound)) range.gte)
          (bounded parse (λ bound. lt version bound) range.less)
  ]

-- `except ModelNotFoundError`, and `except ValueError`, raise a CatalogError in its place.
abbrev pub replaced : {A : Type 0} → Outcome A → Outcome A
replaced (ok a) = ok a
replaced (err f) = err catalog_error

module _ {V : Type 0} where
  -- The versions that pass a test, which may raise.
  unfoldable pub matched : (V → Outcome Bool) → List (NodeEntry V) → Outcome (List (NodeEntry V))
  matched test [] = ok []
  matched test (n ∷ ns) =
      let rest = matched test ns in
      test n.id.version >>= λ passed. rest >>= λ ms. ok (if passed then n ∷ ms else ms)

  -- `matched[-1] if matched else None`
  abbrev pub highest : Outcome (NodeEntry V) → Option (NodeEntry V)
  highest (ok n) = some n
  highest (err f) = none

  -- A target of another kind is an error.
  abbrev pub of_kind : NodeEntry V → NodeEntry V → Outcome (Option (NodeEntry V))
  of_kind target current =
      if not (text_eq current.id.kind target.id.kind) then err catalog_error else ok (some target)

  abbrev pub found : Outcome (NodeEntry V) → Outcome (Option (NodeEntry V))
  found n = n >>= λ n. ok (some n)

  -- `by_kind.get(current.kind, fallback)`
  abbrev pub chosen : Option (Resolver V) → Option (Resolver V) → Resolver V
  chosen (some resolver) fallback current = resolver current
  chosen none (some resolver) current = resolver current
  chosen none none current = ok none

  unfoldable pub multi_target_resolver : Dict Text (Resolver V) → Resolver V
  multi_target_resolver resolvers current =
      chosen
        (get current.id.kind
          (keep_if (λ (r : Text × Resolver V). not (r.0 == codes "*")) resolvers))
        (get (codes "*") resolvers) current

abbrev pub at_version : {V : Type 0} → NodeId V → V → NodeId V
at_version n version = record { namespace = n.namespace; kind = n.kind; version = version }

module _ {V : Type 0} ⦃o : Linear V⦄ (parse : Text → Outcome V) (graph : MigrationGraph V) where
  unfoldable pub range_target_resolver : VersionRange → Resolver V
  unfolding matches matched kind_versions last_version
  range_target_resolver range current =
      matched (matches parse range) (kind_versions graph current.id.kind) >>= λ ns.
      ok (highest (last_version ns))

  unfoldable pub version_target_resolver : V → Resolver V
  unfolding get_model
  version_target_resolver version current = found (get_model graph (at_version current.id version))

  unfoldable pub compile_spec : TargetSpec V → Outcome (Resolver V)
  unfolding latest earliest range_target_resolver version_target_resolver get_model_by_ref has_model
  compile_spec skip = ok (λ current. ok none)
  compile_spec to_latest = ok (λ current. found (latest graph current.id.kind))
  compile_spec to_earliest = ok (λ current. found (earliest graph current.id.kind))
  compile_spec (to_version text) =
      replaced (parse text) >>= λ version. ok (version_target_resolver version)
  compile_spec (to_range range) = ok (range_target_resolver range)
  compile_spec (to_model ref) =
      replaced (get_model_by_ref graph ref) >>= λ target. ok (of_kind target)
  compile_spec (to_node target) =
      if not (has_model graph target.id) then err catalog_error else ok (of_kind target)

  unfoldable pub compile_all : Dict Text (TargetSpec V) → Outcome (Dict Text (Resolver V))
  unfolding compile_spec
  compile_all [] = ok []
  compile_all ((kind, spec) ∷ specs) =
      let rest = compile_all specs in compile_spec spec >>= λ r. rest >>= λ rs. ok ((kind, r) ∷ rs)

  unfoldable pub compile : TargetPolicy V → Outcome (Resolver V)
  unfolding compile_spec compile_all multi_target_resolver
  compile (resolve_by resolver) = ok resolver
  compile (one spec) = compile_spec spec
  compile (for_kinds specs) = compile_all specs >>= λ rs. ok (multi_target_resolver rs)
