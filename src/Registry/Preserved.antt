-- ===== src/Registry/Preserved.antt =====
-- The entries of the registry stay sound under the operations on migrations, hooks and kinds.
use pyverge.Prelude.{
  Bool, true, false, not, ◌&&◌, Option, none, some, List, [], ◌∷◌, ◌++◌, refl, sym, subst,
  if◌then◌else◌, map,
}
use pyverge.Prelude.Text.{Text, text_eq}
use pyverge.Prelude.Linear.{Linear}
use pyverge.Prelude.Dict.{Dict, get, is_some}
use pyverge.Prelude.Groups.{bucket}
use pyverge.Errors.{Outcome, ok, err, catalog_error, migration_conflict, migration_not_found}
use pyverge.Identity.{NodeId, NodeEntry}
use pyverge.Identity.Order.{linear_node, linear_edge, eq_node, eq_edge}
use pyverge.Registry.{
  EdgeEntry, Entity, node, edge, edge_kind, Registry, Services, Call, and_then, no_health,
}
use pyverge.Registry.Health.{
  with_health, refresh_health, rebuild_health, drop_entity, affected_by_edge_change, discard_entity,
  add_entities, edge_entities,
}
use pyverge.Registry.Nodes.{
  store, reconcile, reconcile_with, remove_model, clear_models, with_nodes, is_version_edge,
  same_fields, find_entry, hydrate, remove_entry,
}
use pyverge.Identity.{is_model}
use pyverge.Registry.Edges.{
  with_edges, insert_edge, take_out, meet_existing, put_edge, store_edge, touch_migrations,
  find_edge,
}
use pyverge.Registry.Hooks.{clear_hooks, clear_all_hooks, has_hooks}
use pyverge.Registry.Requests
use pyverge.Registry.Requests.{
  Reflection, MigrationSpec, reconstruct_model, store_spec, remove_migration, remove_found,
  clear_migrations, remove_migration_range, checked_edge, from_pair,
}
use pyverge.Registry.Entries.{refresh_health-with_health}
use pyverge.Registry.Invariant.{IsSound, store-IsSound, remove_entry-IsSound}
use pyverge.Registry.Removal.{find_entry-remove_model}

module _ {V M H I : Type 0} ⦃o : Linear V⦄ where
  -- What a call leaves is sound.
  pub record LeavesSound {A : Type 0} (c : Call (Registry V M H I) A) : Type 0 where
    pub sound : IsSound c.1

  pub leaves : {A : Type 0} (a : Outcome A) (r : Registry V M H I) → IsSound r → LeavesSound (a, r)
  leaves a r s = record { sound = s }

  pub if-LeavesSound :
      {A : Type 0} (b : Bool) (c d : Call (Registry V M H I) A)
      → LeavesSound c
      → LeavesSound d
      → LeavesSound (if b then c else d)
  if-LeavesSound true c d h k = h
  if-LeavesSound false c d h k = k

  pub and_then-LeavesSound :
      {A B : Type 0} (c : Call (Registry V M H I) A)
      (f : A → Registry V M H I → Call (Registry V M H I) B)
      → LeavesSound c
      → ((a : A) (r : Registry V M H I) → IsSound r → LeavesSound (f a r))
      → LeavesSound (and_then c f)
  and_then-LeavesSound (ok a, r) f s go = go a r s.sound
  and_then-LeavesSound (err e, r) f s go = record { sound = s.sound }

  module _ (services : Services V M H I) where
    pub refresh_health-IsSound :
        (es : List (Entity V M)) (r : Registry V M H I)
        → IsSound r
        → IsSound (refresh_health services es r)
    refresh_health-IsSound es r s =
        let (h, e) = refresh_health-with_health services es r in subst IsSound (sym e) s

    pub store-LeavesSound :
        (n : NodeEntry V) (r : Registry V M H I) → IsSound r → LeavesSound (store services n r)
    store-LeavesSound n r s = record { sound = store-IsSound services n r s }

    pub reconcile_with-LeavesSound :
        (m n : NodeEntry V) (r : Registry V M H I)
        → IsSound r
        → LeavesSound (reconcile_with services m n r)
    unfolding reconcile_with
    reconcile_with-LeavesSound m n r s = if-LeavesSound (not (is_model n)) _ _ (leaves _ r s) (
        if-LeavesSound (not (is_model m)) _ _ (leaves _ r s)
          (if-LeavesSound (same_fields n m) _ _ (leaves _ r s) (leaves _ r s)))

    pub reconcile-LeavesSound :
        (n : NodeEntry V) (r : Registry V M H I) → IsSound r → LeavesSound (reconcile services n r)
    unfolding reconcile
    reconcile-LeavesSound n r s = go (find_entry r n.id)
      where
        go :
            (found : Option (NodeEntry V))
            → LeavesSound
                (elim found [ none ↦ store services n r | some m ↦ reconcile_with services m n r ])
        go none = store-LeavesSound n r s
        go (some m) = reconcile_with-LeavesSound m n r s

    pub hydrate-LeavesSound :
        (n : NodeEntry V) (r : Registry V M H I) → IsSound r → LeavesSound (hydrate services n r)
    unfolding hydrate
    hydrate-LeavesSound n r s =
        if-LeavesSound (not (is_model n)) _ _ (leaves _ r s) (go (find_entry r n.id))
      where
        go :
            (found : Option (NodeEntry V))
            → LeavesSound (elim found [
              | none ↦ store services n r
              | some m ↦
                  if is_model m
                  then reconcile services n r
                  else store services n (remove_entry services m r)
            ])
        go none = store-LeavesSound n r s
        go (some m) =
            if-LeavesSound (is_model m) _ _ (reconcile-LeavesSound n r s) (
              store-LeavesSound n (remove_entry services m r) (remove_entry-IsSound services m r s))

    pub remove_model-LeavesSound :
        (k : NodeId V) (r : Registry V M H I) → IsSound r → LeavesSound (remove_model services k r)
    remove_model-LeavesSound k r s = record { sound = (find_entry-remove_model services k r s).0 }

    pub insert_edge-LeavesSound :
        (e : EdgeEntry V M) (r : Registry V M H I)
        → IsSound r
        → LeavesSound (insert_edge services e r)
    unfolding insert_edge
    insert_edge-LeavesSound e r s = record {
      sound = refresh_health-IsSound (affected_by_edge_change e) _ s;
    }

    pub meet_existing-LeavesSound :
        (x e : EdgeEntry V M) (r : Registry V M H I)
        → IsSound r
        → LeavesSound (meet_existing services x e r)
    unfolding meet_existing take_out
    meet_existing-LeavesSound x e r s =
        if-LeavesSound (is_version_edge e && not (is_version_edge x)) _ _
          (insert_edge-LeavesSound e (take_out services x r) s)
          (if-LeavesSound
            (is_version_edge x
              && is_version_edge e
              && not (text_eq (services.digest x) (services.digest e)))
            (err migration_conflict, r) (ok x, r) (leaves _ r s) (leaves _ r s))

    pub put_edge-LeavesSound :
        (e : EdgeEntry V M) (r : Registry V M H I) → IsSound r → LeavesSound (put_edge services e r)
    unfolding put_edge touch_migrations
    put_edge-LeavesSound e r s = go (find_edge (touch_migrations (edge_kind e) r) e)
      where
        go :
            (found : Option (EdgeEntry V M))
            → LeavesSound (elim found [
              | none ↦ insert_edge services e (touch_migrations (edge_kind e) r)
              | some x ↦ meet_existing services x e (touch_migrations (edge_kind e) r)
            ])
        go none = insert_edge-LeavesSound e (touch_migrations (edge_kind e) r) s
        go (some x) = meet_existing-LeavesSound x e (touch_migrations (edge_kind e) r) s

    pub store_edge-LeavesSound :
        (e : EdgeEntry V M) (r : Registry V M H I)
        → IsSound r
        → LeavesSound (store_edge services e r)
    unfolding store_edge
    store_edge-LeavesSound e r s =
        if-LeavesSound
          (is_version_edge e
            && not (is_some (find_entry r e.source.id) && is_some (find_entry r e.target.id)))
          (err migration_not_found, r) (put_edge services e r) (leaves _ r s)
          (put_edge-LeavesSound e r s)

    pub remove_found-IsSound :
        (key : EdgeEntry V M) (found : Option (EdgeEntry V M)) (r : Registry V M H I)
        → IsSound r
        → IsSound (Requests.remove_found services key found r)
    unfolding Requests.remove_found drop_entity
    remove_found-IsSound key none r s = refresh_health-IsSound (affected_by_edge_change key) r s
    remove_found-IsSound key (some x) r s =
        refresh_health-IsSound (discard_entity (edge x) (affected_by_edge_change x)) _ s

    pub remove_migration-LeavesSound :
        (key : EdgeEntry V M) (r : Registry V M H I)
        → IsSound r
        → LeavesSound (remove_migration services key r)
    unfolding remove_migration touch_migrations
    remove_migration-LeavesSound key r s =
        if-LeavesSound (has_hooks r key) (err catalog_error, r) _ (leaves _ r s)
          (record {
            sound =
                remove_found-IsSound key (find_edge (touch_migrations (edge_kind key) r) key)
                  (touch_migrations (edge_kind key) r) s;
          })

    pub rebuild_health-IsSound :
        (r : Registry V M H I) → IsSound r → IsSound (rebuild_health services r)
    unfolding rebuild_health
    rebuild_health-IsSound r s =
        refresh_health-IsSound
          (add_entities [] (map (λ n. node n) r.by_versions ++ edge_entities r.migrations))
          (with_health r no_health) s

    pub clear_migrations-IsSound :
        (r : Registry V M H I) → IsSound r → IsSound (clear_migrations services r)
    unfolding clear_migrations clear_all_hooks
    clear_migrations-IsSound r s =
        rebuild_health-IsSound
          (with_edges [] [] (elim r.digest_index [ none ↦ none | some d ↦ some [] ])
            (clear_all_hooks r))
          s

    pub clear_hooks-LeavesSound :
        (key : EdgeEntry V M) (r : Registry V M H I) → IsSound r → LeavesSound (clear_hooks key r)
    unfolding clear_hooks
    clear_hooks-LeavesSound key r s =
        if-LeavesSound (has_hooks r key) _ (err catalog_error, r) (record { sound = s })
          (leaves _ r s)

    pub clear_models-LeavesSound :
        (r : Registry V M H I) → IsSound r → LeavesSound (clear_models services r)
    unfolding clear_models bucket get
    clear_models-LeavesSound r s = go r.migrations
      where
        go :
            (ms : Dict Text (List (EdgeEntry V M)))
            → LeavesSound (elim ms [
              | [] ↦ (ok tt, rebuild_health services (with_nodes [] [] [] r))
              | m ∷ ms ↦ (err catalog_error, r)
            ])
        go [] = record {
          sound =
              rebuild_health-IsSound (with_nodes [] [] [] r)
                (record { sorted = tt; by_kind = λ kind. refl });
        }
        go (m ∷ ms) = leaves _ r s
