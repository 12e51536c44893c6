-- ===== src/Registry/SideEffects.antt =====
-- What lookups and refused removals leave behind in the dictionaries of the registry, and what
-- later calls make of it.
use pyverge.Prelude.{true, false, none, some, [], ◌∷◌, ◌≡◌, refl, ◌∙◌, ap, beq_refl}
use pyverge.Prelude.Text.{eq_text}
use pyverge.Prelude.Dict.{get, set_item, is_some, has_key, get-set_item}
use pyverge.Prelude.Linear.{Linear}
use pyverge.Prelude.Sorted.{find_at}
use pyverge.Prelude.Groups.{bucket}
use pyverge.Errors.{ok, err, catalog_error, model_already_registered}
use pyverge.Identity.{NodeId, NodeEntry}
use pyverge.Identity.Order.{linear_node, linear_edge, eq_node, eq_edge}
use pyverge.Registry.{EdgeEntry, edge_id, edge_kind, Registry, Services}
use pyverge.Registry.Health.{with_health, affected_by_edge_change}
use pyverge.Registry.Nodes.{find_entry, store, clear_models}
use pyverge.Registry.Edges.{find_edge, touch_migrations}
use pyverge.Registry.Hooks.{has_hooks, hooks, get_hooks}
use pyverge.Registry.Requests.{Reflection, reconstruct_model, remove_migration, remove_found}
use pyverge.Registry.Entries.{refresh_health-with_health}

module _ {V M H I : Type 0} ⦃o : Linear V⦄ (services : Services V M H I) where
  -- To read the hooks of a migration through `hooks(key)` is to register it as one with hooks:
  -- the lookup gives the same hooks as `get_hooks`, but from then on the migration cannot be
  -- removed, even if it has none.
  pub hooks-remove_migration :
      (key : EdgeEntry V M) (r : Registry V M H I)
      → ((hooks (some key) r).0 ≡ get_hooks r key)
        × (has_hooks (hooks (some key) r).1 key ≡ true)
        × (remove_migration services key (hooks (some key) r).1
            ≡ (err catalog_error, (hooks (some key) r).1))
  unfolding hooks get_hooks remove_migration has_hooks has_key
  hooks-remove_migration key r =
      let found : get (edge_id key) (set_item (edge_id key) (bucket (edge_id key) r.hooks) r.hooks)
          ≡ some (bucket (edge_id key) r.hooks) =
        rw (get-set_item, beq_refl) refl in
      (refl, ap is_some found, rw found refl)

  -- The touched dictionary of a registry without migrations.
  touched_lem :
      (key : EdgeEntry V M) (r : Registry V M H I)
      → r.migrations ≡ []
      → ((touch_migrations (edge_kind key) r).migrations ≡ (edge_kind key, []) ∷ [])
        × (find_edge (touch_migrations (edge_kind key) r) key ≡ none)
  unfolding touch_migrations find_edge set_item bucket get find_at
  touched_lem key r none' = (rw none' refl, rw (none', beq_refl) refl)

  -- To remove a migration without hooks from a registry that has no migrations succeeds, and from then on the models
  -- cannot be cleared: the removal leaves an empty list under the kind.
  pub remove_migration-clear_models :
      (key : EdgeEntry V M) (r : Registry V M H I)
      → r.migrations ≡ []
      → has_hooks r key ≡ false
      → ((remove_migration services key r).0 ≡ ok tt)
        × ((clear_models services (remove_migration services key r).1).0 ≡ err catalog_error)
  unfolding remove_migration remove_found clear_models
  remove_migration-clear_models key r empty free =
      let touched = touch_migrations (edge_kind key) r in
      let (filled, missing) = touched_lem key r empty in
      let (h, e) = refresh_health-with_health services (affected_by_edge_change key) touched in
      let all : remove_migration services key r ≡ (ok tt, with_health touched h) =
        rw (free, missing) (ap (λ r. (ok tt, r)) e) in
      (ap (λ c. c.0) all, ap (λ c. (clear_models services c.1).0) all ∙ rw filled refl)

  -- Where models may be reconstructed, and reflection gives one of the missing identity, an
  -- endpoint that has an entry already, if only by its key, cannot be reconstructed: the model is
  -- refused as already registered.
  pub reconstruct_model-store :
      {F : Type 0} (reflection : Reflection V M F) (anchor n bare : NodeEntry V)
      (missing : NodeId V) (func : F) (r : Registry V M H I)
      → r.reconstructs ≡ true
      → reflection.reconstruct anchor missing func ≡ ok n
      → n.id ≡ missing
      → find_entry r missing ≡ some bare
      → reconstruct_model services reflection anchor missing func r
        ≡ (err model_already_registered, r)
  unfolding reconstruct_model store
  reconstruct_model-store reflection anchor n bare missing func r allowed made named known =
      let known' : find_entry r n.id ≡ some bare = ap (λ k. find_entry r k) named ∙ known in
      rw (allowed, made, known') refl
