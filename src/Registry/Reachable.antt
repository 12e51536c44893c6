-- ===== src/Registry/Reachable.antt =====
-- Every sequence of calls of the registry leaves it sound.
use pyverge.Prelude.{Eq, Bool, Option, none, some, List, [], ◌∷◌, ◌≡◌, refl, subst}
use pyverge.Prelude.Text.{Text}
use pyverge.Prelude.Linear.{Linear}
use pyverge.Prelude.Dict.{get}
use pyverge.Prelude.Groups.{bucket}
use pyverge.Errors.{ok_inj, ok}
use pyverge.Identity.{ModelRef, NodeId, NodeEntry}
use pyverge.Identity.Order.{eq_ref, linear_node, linear_edge, eq_node, eq_edge}
use pyverge.Registry.{init, EdgeEntry, Registry, Services}
use pyverge.Registry.Nodes.{
  store, reconcile, remove_model, remove_model_by_ref, clear_models, hydrate,
}
use pyverge.Registry.Edges.{store_edge}
use pyverge.Registry.Hooks.{add_hook, hooks, remove_hook}
use pyverge.Registry.Requests.{
  Reflection, MigrationSpec, store_spec, remove_migration, clear_migrations, remove_migration_range,
}
use pyverge.Registry.Kinds.{delete_kind}
use pyverge.Registry.Invariant.{IsSound, store-IsSound}
use pyverge.Registry.Preserved.{
  reconcile-LeavesSound, hydrate-LeavesSound, remove_model-LeavesSound, store_edge-LeavesSound,
  remove_migration-LeavesSound, clear_migrations-IsSound, clear_models-LeavesSound,
}
use pyverge.Registry.Commands.{
  store_spec-LeavesSound, remove_migration_range-LeavesSound, add_hook-IsSound,
  remove_hook-LeavesSound, remove_model_by_ref-LeavesSound, delete_kind-LeavesSound,
}

-- The calls that a client may make of the registry.
pub data Command (V M H F : Type 0) : Type 0 where
  store_entry reconcile_entry hydrate_entry : NodeEntry V → Command V M H F
  remove_version : NodeId V → Command V M H F
  remove_ref : ModelRef → Command V M H F
  delete_models_of : Text → Command V M H F
  store_key : EdgeEntry V M → Command V M H F
  request : MigrationSpec V F → Command V M H F
  remove_edge : EdgeEntry V M → Command V M H F
  remove_range : (from to : NodeId V) → Command V M H F
  hook : EdgeEntry V M → H → Command V M H F
  read_hooks : Option (EdgeEntry V M) → Command V M H F
  unhook : EdgeEntry V M → Option H → Command V M H F
  clear_all_models clear_all_migrations : Command V M H F

module _ {V M H I F : Type 0} ⦃o : Linear V⦄ ⦃q : Eq H⦄ (services : Services V M H I)
    (reflection : Reflection V M F) where
  -- The registry after a call, whether it returns or raises.
  unfoldable pub perform : Command V M H F → Registry V M H I → Registry V M H I
  unfolding store reconcile hydrate remove_model remove_model_by_ref delete_kind store_edge
      store_spec remove_migration remove_migration_range add_hook hooks remove_hook clear_models
      clear_migrations
  perform (store_entry n) r = (store services n r).1
  perform (reconcile_entry n) r = (reconcile services n r).1
  perform (hydrate_entry n) r = (hydrate services n r).1
  perform (remove_version k) r = (remove_model services k r).1
  perform (remove_ref ref) r = (remove_model_by_ref services ref r).1
  perform (delete_models_of kind) r = (delete_kind services kind r).1
  perform (store_key e) r = (store_edge services e r).1
  perform (request spec) r = (store_spec services reflection spec r).1
  perform (remove_edge e) r = (remove_migration services e r).1
  perform (remove_range from to) r = (remove_migration_range services from to r).1
  perform (hook e h) r = add_hook services e h r
  perform (read_hooks e) r = (hooks e r).1
  perform (unhook e h) r = (remove_hook services e h r).1
  perform clear_all_models r = (clear_models services r).1
  perform clear_all_migrations r = clear_migrations services r

  unfoldable pub perform_all : List (Command V M H F) → Registry V M H I → Registry V M H I
  unfolding perform
  perform_all [] r = r
  perform_all (c ∷ cs) r = perform_all cs (perform c r)

  hooks-IsSound :
      (e : Option (EdgeEntry V M)) (r : Registry V M H I) → IsSound r → IsSound (hooks e r).1
  unfolding hooks
  hooks-IsSound none r s = s
  hooks-IsSound (some e) r s = s

  perform-IsSound : (c : Command V M H F) (r : Registry V M H I) → IsSound r → IsSound (perform c r)
  unfolding perform
  perform-IsSound (store_entry n) r s = store-IsSound services n r s
  perform-IsSound (reconcile_entry n) r s = (reconcile-LeavesSound services n r s).sound
  perform-IsSound (hydrate_entry n) r s = (hydrate-LeavesSound services n r s).sound
  perform-IsSound (remove_version k) r s = (remove_model-LeavesSound services k r s).sound
  perform-IsSound (remove_ref ref) r s = (remove_model_by_ref-LeavesSound services ref r s).sound
  perform-IsSound (delete_models_of kind) r s = (delete_kind-LeavesSound services kind r s).sound
  perform-IsSound (store_key e) r s = (store_edge-LeavesSound services e r s).sound
  perform-IsSound (request spec) r s = (store_spec-LeavesSound services reflection spec r s).sound
  perform-IsSound (remove_edge e) r s = (remove_migration-LeavesSound services e r s).sound
  perform-IsSound (remove_range from to) r s =
      (remove_migration_range-LeavesSound services from to r s).sound
  perform-IsSound (hook e h) r s = add_hook-IsSound services e h r s
  perform-IsSound (read_hooks e) r s = hooks-IsSound e r s
  perform-IsSound (unhook e h) r s = (remove_hook-LeavesSound services e h r s).sound
  perform-IsSound clear_all_models r s = (clear_models-LeavesSound services r s).sound
  perform-IsSound clear_all_migrations r s = clear_migrations-IsSound services r s

  perform_all-keeps :
      (cs : List (Command V M H F)) (r : Registry V M H I) → IsSound r → IsSound (perform_all cs r)
  unfolding perform_all
  perform_all-keeps [] r s = s
  perform_all-keeps (c ∷ cs) r s = perform_all-keeps cs (perform c r) (perform-IsSound c r s)

  -- From a new registry, any sequence of calls, those that raise included, leaves the entries
  -- strictly sorted by identity, each identity once, and the list of each kind equal to the
  -- entries of the kind, in order.
  pub perform_all-IsSound :
      (namespace : Text) (reconstructs index_digests : Bool) (r : Registry V M H I)
      (cs : List (Command V M H F))
      → init namespace reconstructs index_digests ≡ ok r
      → IsSound (perform_all cs r)
  unfolding init bucket get
  perform_all-IsSound [] reconstructs index_digests r cs h = cc
  perform_all-IsSound (c ∷ text) reconstructs index_digests r cs h =
      perform_all-keeps cs r
        (subst IsSound (ok_inj h) (record { sorted = tt; by_kind = λ kind. refl }))
