-- ===== src/Registry/Lookup.antt =====
-- core/registry/memory.py and types.py: the read-only lookups of the registry, and its health.
use pyverge.Prelude.{
  ℕ, ◌-◌, Bool, true, false, ◌&&◌, ◌||◌, Option, none, some, List, [], ◌∷◌, ◌++◌, map, length,
  keep_if, if◌then◌else◌, ltb, leb, ◌≡◌, refl,
}
use pyverge.Prelude.Text.{Text, eq_text}
use pyverge.Prelude.Dict.{Dict, get, is_some}
use pyverge.Prelude.Linear.{Linear, linear_text, linear_pair}
use pyverge.Prelude.Sorted.{sorted, bisect_left}
use pyverge.Prelude.Groups.{bucket}
use pyverge.Errors.{Outcome, ok, err, model_not_found, migration_not_found, health_validation}
use pyverge.Identity.{NodeId, NodeEntry, EdgeId, ModelRef, is_model}
use pyverge.Identity.Order.{linear_node, linear_edge, eq_node, eq_edge, eq_ref}
use pyverge.Graph.{or_raise, last_version, first_version}
use pyverge.Registry.{EdgeEntry, EntityKey, eq_key, edge_id, edge_kind, Registry}
use pyverge.Registry.Nodes.{find_entry, find_model, kind_versions, is_version_edge}
use pyverge.Registry.Edges.{find_edge}

-- `HealthSeverity`, and `HealthFailLevel`, which may be "never".
pub data Severity : Type 0 where
  info warning error : Severity

pub data FailLevel : Type 0 where
  never : FailLevel
  at : Severity → FailLevel

abbrev rank : Severity → ℕ
rank info = 0
rank warning = 1
rank error = 2

-- `HealthIssue.blocks`
unfoldable pub blocks : Severity → FailLevel → Bool
blocks severity never = false
blocks severity (at level) = leb (rank level) (rank severity)

abbrev is_filled : {K A : Type 0} → K × List A → Bool
is_filled (k, []) = false
is_filled (k, a ∷ rest) = true

abbrev pub all_lists : {K A : Type 0} → Dict K (List A) → List A
all_lists [] = []
all_lists ((k, xs) ∷ d) = xs ++ all_lists d

abbrev filled : {A : Type 0} → List A → Bool
filled [] = false
filled (a ∷ rest) = true

module _ {V M H I : Type 0} ⦃o : Linear V⦄ (r : Registry V M H I) where
  unfoldable pub versions : List (NodeEntry V)
  unfolding is_model
  versions = keep_if is_model r.by_versions

  unfoldable pub kinds : List Text
  kinds = map (λ (p : Text × List (EdgeEntry V M)). p.0) r.migrations

  unfoldable pub entities : List Text
  entities =
      sorted (λ (t : Text). t)
        (map (λ (p : Text × List (NodeEntry V)). p.0) (keep_if is_filled r.by_kinds))

  unfoldable pub latest_version : Outcome (NodeEntry V)
  unfolding versions last_version
  latest_version = last_version versions

  unfoldable pub latest : Text → Outcome (NodeEntry V)
  unfolding kind_versions last_version
  latest kind = last_version (kind_versions r kind)

  unfoldable pub earliest : Text → Outcome (NodeEntry V)
  unfolding kind_versions first_version
  earliest kind = first_version (kind_versions r kind)

  unfoldable pub migrations : Text → List (EdgeEntry V M)
  unfolding bucket
  migrations kind = keep_if is_version_edge (bucket kind r.migrations)

  unfoldable pub edges : Text → List (EdgeEntry V M)
  unfolding bucket
  edges kind = bucket kind r.migrations

  unfoldable pub edges_of : NodeId V → List (EdgeEntry V M)
  unfolding bucket
  edges_of key = bucket key r.edges_by_version

  unfoldable pub kind_entries : Text → List (NodeEntry V)
  unfolding bucket
  kind_entries kind = bucket kind r.by_kinds

  -- `idx < len(self._by_versions) and self._by_versions[idx] == key`, of any entry.
  unfoldable pub has_model : NodeId V → Bool
  unfolding find_entry
  has_model key = is_some (find_entry r key)

  unfoldable pub has_entry : NodeId V → Bool
  unfolding find_entry
  has_entry key = is_some (find_entry r key)

  unfoldable pub get_entry : NodeId V → Outcome (NodeEntry V)
  unfolding find_entry
  get_entry key = or_raise model_not_found (find_entry r key)

  unfoldable pub get_model : NodeId V → Outcome (NodeEntry V)
  unfolding find_model
  get_model key = or_raise model_not_found (find_model r key)

  unfoldable pub get_model_by_ref : ModelRef → Outcome (NodeEntry V)
  get_model_by_ref ref = or_raise model_not_found (get ref r.by_models)

  unfoldable pub has_edge : EdgeEntry V M → Bool
  unfolding find_edge
  has_edge key = is_some (find_edge r key)

  unfoldable pub get_edge : EdgeEntry V M → Outcome (EdgeEntry V M)
  unfolding find_edge
  get_edge key = or_raise migration_not_found (find_edge r key)

  abbrev only_executable : Option (EdgeEntry V M) → Option (EdgeEntry V M)
  only_executable none = none
  only_executable (some e) = if is_version_edge e then some e else none

  unfoldable pub get_migration_by_edge : EdgeEntry V M → Outcome (EdgeEntry V M)
  unfolding find_edge
  get_migration_by_edge key = or_raise migration_not_found (only_executable (find_edge r key))

  unfoldable pub is_critical_edge : EdgeEntry V M → Bool
  unfolding bucket bisect_left
  is_critical_edge key =
      let paths = bucket (edge_kind key) r.migrations in
      let idx = bisect_left edge_id paths (edge_id key) in
      ltb 2 (length paths) && (ltb 0 idx || ltb idx (length paths - 1))

  unfoldable pub find_edge_by_digest : Text → Option (EdgeId V)
  find_edge_by_digest value = elim r.digest_index [ none ↦ none | some d ↦ get value d ]

  -- `health_issues`, by `(str(issue.entity), issue.code)`, which is given.
  unfoldable pub health_issues : (I → Text × Text) → List I
  health_issues order =
      sorted ⦃o = linear_pair linear_text linear_text⦄ order (all_lists r.health.issues)

  unfoldable pub health :
      (I → Text × Text)
      → (I → Severity)
      → Option (EntityKey V)
      → Option FailLevel
      → Outcome (List I)
  unfolding health_issues bucket blocks
  health order severity entity fail_level =
      let issues : List I = elim entity [
        | none ↦ health_issues order
        | some key ↦ bucket key r.health.issues
      ] in
      elim fail_level [
        | none ↦ ok issues
        | some level ↦
            if filled (keep_if (λ i. blocks (severity i) level) issues)
            then err health_validation
            else ok issues
      ]

  -- Of an identity that is known by its key only, has_model says that there is a model, and
  -- get_model raises that there is none.
  pub has_model-get_model :
      (key : NodeId V) (n : NodeEntry V)
      → find_entry r key ≡ some n
      → is_model n ≡ false
      → (has_model key ≡ true) × (get_model key ≡ err model_not_found)
  unfolding has_model get_model find_model
  has_model-get_model key n known bare = (rw known refl, rw (known, bare) refl)
