-- ===== src/Registry/Requests.antt =====
-- core/registry/memory.py: migration requests, and the removal of migrations, ranges and kinds.
-- What reflection computes is given.
use pyverge.Prelude.{
  ℕ, zero, suc, ◌-◌, not, Option, none, some, List, [], ◌∷◌, ◌++◌, if◌then◌else◌, get_elem?,
}
use pyverge.Prelude.Text.{Text, text_eq, eq_text}
use pyverge.Prelude.Linear.{Linear}
use pyverge.Prelude.Sorted.{bisect_left, remove_at}
use pyverge.Prelude.Groups.{bucket}
use pyverge.Errors.{
  Outcome, ok, err, catalog_error, model_not_found, value_error, index_error, ◌>>=◌,
}
use pyverge.Identity.{NodeId, NodeEntry, default_discriminator}
use pyverge.Identity.Order.{linear_node, linear_edge, eq_node, eq_edge}
use pyverge.Registry.{EdgeEntry, edge, edge_id, edge_kind, Registry, Services, Call, and_then}
use pyverge.Registry.Health.{
  affected_by_edge_change, refresh_health, rebuild_health, drop_entity, discard_entity,
  add_entities,
}
use pyverge.Registry.Nodes.{node_id, is_version_edge, find_model, store, touch_kind, kind_versions}
use pyverge.Registry.Edges.{
  find_edge, has_migration, is_adjacent, touch_migrations, put_edge, discard_at, with_edges,
  pop_digest, left_kind,
}
use pyverge.Registry.Hooks.{has_hooks, clear_all_hooks}

-- `DefaultMigrationIdentityResolver` and `ReflectionPort`: the model of a missing endpoint, from
-- the other one, and the executable part of an edge. Either may raise.
pub record Reflection (V M F : Type 0) : Type 0 where
  pub reconstruct : NodeEntry V → NodeId V → F → Outcome (NodeEntry V)
  pub resolve : NodeEntry V → NodeEntry V → F → Outcome M

pub record MigrationSpec (V F : Type 0) : Type 0 where
  pub v_from : NodeId V
  pub v_to : NodeId V
  pub func : F
  pub discriminator : Text

-- `EdgeId.__post_init__`, of an edge that is being made.
unfoldable pub checked_edge : {V M : Type 0} → EdgeEntry V M → Outcome (EdgeEntry V M)
checked_edge e =
    if text_eq e.discriminator []
    then err value_error
    else if not (text_eq e.source.id.namespace e.target.id.namespace)
    then err value_error
    else if not (text_eq e.source.id.kind e.target.id.kind)
    then err value_error
    else ok e

abbrev pub from_pair : {V M : Type 0} → NodeEntry V → NodeEntry V → EdgeEntry V M
from_pair source target = record {
  source = source;
  target = target;
  discriminator = default_discriminator;
  migration = none;
}

-- A value, or the exception that making it raised, in a registry that is not changed.
abbrev pub given : {R A : Type 0} → Outcome A → R → Call R A
given a r = (a, r)

-- `reversed(items)`
abbrev reversed : {A : Type 0} → List A → List A
reversed [] = []
reversed (x ∷ xs) = reversed xs ++ x ∷ []

module _ {V M H I : Type 0} ⦃o : Linear V⦄ (services : Services V M H I) where
  module _ {F : Type 0} (reflection : Reflection V M F) where
    -- A missing endpoint is reconstructed from the other one and stored, if that is allowed.
    unfoldable pub reconstruct_model :
        NodeEntry V → NodeId V → F → Registry V M H I → Call (Registry V M H I) (NodeEntry V)
    unfolding store
    reconstruct_model anchor missing func r =
        if not r.reconstructs
        then (err model_not_found, r)
        else and_then (given (reflection.reconstruct anchor missing func) r) (store services)

    unfoldable pub resolve_ends :
        MigrationSpec V F
        → Option (NodeEntry V)
        → Option (NodeEntry V)
        → Registry V M H I
        → Call (Registry V M H I) (NodeEntry V × NodeEntry V)
    unfolding reconstruct_model
    resolve_ends spec none none r = (err model_not_found, r)
    resolve_ends spec none (some to) r =
        and_then (reconstruct_model to spec.v_from spec.func r) (λ from r. (ok (from, to), r))
    resolve_ends spec (some from) none r =
        and_then (reconstruct_model from spec.v_to spec.func r) (λ to r. (ok (from, to), r))
    resolve_ends spec (some from) (some to) r = (ok (from, to), r)

    unfoldable pub make_version_edge :
        MigrationSpec V F → NodeEntry V → NodeEntry V → Outcome (EdgeEntry V M)
    unfolding checked_edge
    make_version_edge spec from to = do
      migration ← reflection.resolve from to spec.func
      checked_edge (record {
        source = from;
        target = to;
        discriminator = spec.discriminator;
        migration = some migration;
      })

    unfoldable pub bind_ends :
        MigrationSpec V F
        → NodeEntry V × NodeEntry V
        → Registry V M H I
        → Call (Registry V M H I) (EdgeEntry V M)
    unfolding checked_edge is_adjacent touch_kind make_version_edge put_edge
    bind_ends spec (from, to) r = and_then (given (checked_edge (from_pair from to)) r) (λ key r.
        let touched = touch_kind from.id.kind r in
        if not (is_adjacent touched key)
        then (err catalog_error, touched)
        else and_then (given (make_version_edge spec from to) touched) (put_edge services))

    -- `store_migration(spec)`, with a reflection port.
    unfoldable pub store_spec :
        MigrationSpec V F → Registry V M H I → Call (Registry V M H I) (EdgeEntry V M)
    unfolding find_model resolve_ends bind_ends
    store_spec spec r =
        if not (text_eq spec.v_from.kind spec.v_to.kind)
        then (err catalog_error, r)
        else and_then (resolve_ends spec (find_model r spec.v_from) (find_model r spec.v_to) r)
            (bind_ends spec)

  -- The indexes without a stored edge; `key` names the nodes.
  abbrev without_edge : EdgeEntry V M → EdgeEntry V M → Registry V M H I → Registry V M H I
  without_edge key existing r =
      with_edges
        (left_kind (edge_kind key)
          (remove_at edge_id (bucket (edge_kind key) r.migrations) (edge_id key)) r.migrations)
        (discard_at key.target.id key (discard_at key.source.id key r.edges_by_version))
        (if is_version_edge existing
          then pop_digest (services.digest existing) r.digest_index
          else r.digest_index)
        r

  unfoldable pub remove_found :
      EdgeEntry V M → Option (EdgeEntry V M) → Registry V M H I → Registry V M H I
  unfolding remove_at bucket discard_at affected_by_edge_change refresh_health drop_entity
      discard_entity add_entities
  remove_found key none r = refresh_health services (affected_by_edge_change key) r
  remove_found key (some existing) r =
      refresh_health services (discard_entity (edge existing) (affected_by_edge_change existing))
        (drop_entity (edge existing) (without_edge key existing r))

  -- `self._migrations[key.kind]` makes, and keeps, an empty list of a kind that is not there.
  unfoldable pub remove_migration : EdgeEntry V M → Registry V M H I → Call (Registry V M H I) Unit
  unfolding has_hooks find_edge touch_migrations remove_found
  remove_migration key r =
      if has_hooks r key
      then (err catalog_error, r)
      else let touched = touch_migrations (edge_kind key) r in
        (ok tt, remove_found key (find_edge touched key) touched)

  unfoldable pub clear_migrations : Registry V M H I → Registry V M H I
  unfolding clear_all_hooks rebuild_health
  clear_migrations r = rebuild_health services (
      with_edges [] [] (elim r.digest_index [ none ↦ none | some d ↦ some [] ]) (clear_all_hooks r))

  abbrev at_index : {A : Type 0} → Option A → Outcome A
  at_index none = err index_error
  at_index (some a) = ok a

  unfoldable pub remove_all : List (EdgeEntry V M) → Registry V M H I → Call (Registry V M H I) Unit
  unfolding remove_migration
  remove_all [] r = (ok tt, r)
  remove_all (e ∷ es) r = and_then (remove_migration e r) (λ _ r. remove_all es r)

  -- A migration is refused if its ends are adjacent or if it has hooks.
  unless_kept :
      Registry V M H I
      → EdgeEntry V M
      → Outcome (List (EdgeEntry V M))
      → Outcome (List (EdgeEntry V M))
  unfolding has_migration is_adjacent has_hooks
  unless_kept r key rest =
      if not (has_migration r key)
      then rest
      else if is_adjacent r key
      then err catalog_error
      else if has_hooks r key
      then err catalog_error
      else rest >>= λ keys. ok (key ∷ keys)

  -- `for i in range(lo, hi)`: the edges that may be removed. The kind has entries, so the lookups
  -- of `is_adjacent` make no list.
  unfoldable pub removable :
      Registry V M H I → List (NodeEntry V) → ℕ → ℕ → Outcome (List (EdgeEntry V M))
  unfolding checked_edge unless_kept
  removable r versions i zero = ok []
  removable r versions i (suc n) = do
    source ← at_index (get_elem? versions i)
    target ← at_index (get_elem? versions (suc i))
    key ← checked_edge (from_pair source target)
    let rest = removable r versions (suc i) n
    unless_kept r key rest

  unfoldable pub remove_migration_range :
      NodeId V → NodeId V → Registry V M H I → Call (Registry V M H I) Unit
  unfolding kind_versions bisect_left removable remove_all
  remove_migration_range from_version to_version r =
      let versions = kind_versions r from_version.kind in
      let lo = bisect_left node_id versions from_version in
      let hi = bisect_left node_id versions to_version in
      and_then (given (removable r versions lo (hi - lo)) r) remove_all
