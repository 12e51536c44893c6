-- ===== src/Registry/Kinds.antt =====
-- core/registry/memory.py: `delete_kind`.
use pyverge.Prelude.{
  Bool, true, false, not, none, ◌&&◌, List, [], ◌∷◌, ◌++◌, ◌==◌, if◌then◌else◌, any_of,
}
use pyverge.Prelude.Text.{Text}
use pyverge.Prelude.Linear.{Linear}
use pyverge.Errors.{ok, err, catalog_error, is_catalog_error}
use pyverge.Identity.{NodeEntry}
use pyverge.Identity.Order.{linear_node, eq_node}
use pyverge.Registry.{EdgeEntry, Registry, Services, Call, and_then}
use pyverge.Registry.Nodes.{kind_versions, migrations_of, remove_model}
use pyverge.Registry.Hooks.{has_hooks, clear_hooks}
use pyverge.Registry.Requests.{remove_migration}

abbrev pub reversed : {A : Type 0} → List A → List A
reversed [] = []
reversed (x ∷ xs) = reversed xs ++ x ∷ []

module _ {V M : Type 0} ⦃o : Linear V⦄ where
  -- Both endpoints are in the set.
  abbrev pub inside : List (NodeEntry V) → EdgeEntry V M → Bool
  inside versions e =
      any_of (λ n. n.id == e.source.id) versions && any_of (λ n. n.id == e.target.id) versions

  -- `EdgeKey.from_version_edge(edge)`
  abbrev pub as_key : EdgeEntry V M → EdgeEntry V M
  as_key e = record {
    source = e.source;
    target = e.target;
    discriminator = e.discriminator;
    migration = none;
  }

module _ {V M H I : Type 0} ⦃o : Linear V⦄ (services : Services V M H I) where
  -- A migration of a version leads out of the kind.
  unfoldable pub any_outside : Registry V M H I → List (NodeEntry V) → List (NodeEntry V) → Bool
  unfolding migrations_of
  any_outside r versions [] = false
  any_outside r versions (n ∷ ns) =
      if any_of (λ e. not (inside versions e)) (migrations_of r n.id)
      then true
      else any_outside r versions ns

  unfoldable pub drop_hooks : EdgeEntry V M → Registry V M H I → Call (Registry V M H I) Unit
  unfolding has_hooks clear_hooks
  drop_hooks e r = if has_hooks r e then clear_hooks e r else (ok tt, r)

  unfoldable pub remove_each :
      List (NodeEntry V) → List (EdgeEntry V M) → Registry V M H I → Call (Registry V M H I) Unit
  unfolding drop_hooks remove_migration
  remove_each versions [] r = (ok tt, r)
  remove_each versions (e ∷ es) r =
      if inside versions e
      then and_then (drop_hooks e r) (λ _ r.
        and_then (remove_migration services (as_key e) r) (λ _ r. remove_each versions es r))
      else remove_each versions es r

  unfoldable pub remove_edges :
      List (NodeEntry V) → List (NodeEntry V) → Registry V M H I → Call (Registry V M H I) Unit
  unfolding remove_each migrations_of
  remove_edges versions [] r = (ok tt, r)
  remove_edges versions (n ∷ ns) r =
      and_then (remove_each versions (migrations_of r n.id) r) (λ _ r. remove_edges versions ns r)

  -- `except CatalogError: pass`, which takes in the errors that are subclasses of it.
  abbrev pub passed : Call (Registry V M H I) Unit → Call (Registry V M H I) Unit
  passed (ok a, r) = (ok a, r)
  passed (err f, r) = (if is_catalog_error f then ok tt else err f, r)

  unfoldable pub remove_models :
      List (NodeEntry V) → Registry V M H I → Call (Registry V M H I) Unit
  unfolding remove_model
  remove_models [] r = (ok tt, r)
  remove_models (n ∷ ns) r =
      and_then (passed (remove_model services n.id r)) (λ _ r. remove_models ns r)

  unfoldable pub delete_kind : Text → Registry V M H I → Call (Registry V M H I) Unit
  unfolding kind_versions any_outside remove_edges remove_models
  delete_kind kind r = elim (kind_versions r kind) [
    | [] ↦ (ok tt, r)
    | n ∷ ns ↦
        if any_outside r (n ∷ ns) (n ∷ ns)
        then (err catalog_error, r)
        else and_then (remove_edges (n ∷ ns) (n ∷ ns) r)
            (λ _ r. remove_models (reversed (n ∷ ns)) r)
  ]
