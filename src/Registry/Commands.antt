-- ===== src/Registry/Commands.antt =====
-- The registry stays sound under migration requests, hooks, ranges and kinds.
use pyverge.Prelude.{Eq, not, Option, none, some, List, [], ◌∷◌, if◌then◌else◌, ◌-◌}
use pyverge.Prelude.Text.{Text, text_eq}
use pyverge.Prelude.Linear.{Linear}
use pyverge.Prelude.Dict.{Dict, get, del_item}
use pyverge.Prelude.Sorted.{bisect_left}
use pyverge.Prelude.Groups.{contains, append_to}
use pyverge.Errors.{ok, err, catalog_error, model_not_found, value_error}
use pyverge.Identity.{ModelRef, EdgeId, NodeId, NodeEntry}
use pyverge.Identity.Order.{eq_ref, linear_node, linear_edge, eq_node, eq_edge}
use pyverge.Registry.{EdgeEntry, edge, edge_id, Registry, Services, Call, and_then}
use pyverge.Registry.Health.{refresh_health}
use pyverge.Registry.Nodes.{
  store, remove_model, remove_model_by_ref, find_model, touch_kind, kind_versions, migrations_of,
  node_id,
}
use pyverge.Registry.Edges.{put_edge, is_adjacent}
use pyverge.Registry.Hooks.{add_hook, clear_hooks, remove_hook, has_hooks, with_hooks}
use pyverge.Registry.Requests.{
  Reflection, MigrationSpec, reconstruct_model, store_spec, remove_migration,
  remove_migration_range, checked_edge, from_pair,
}
use pyverge.Registry.Kinds.{delete_kind}
use pyverge.Registry.Entries.{touch-AreSound}
use pyverge.Registry.Invariant.{IsSound}
use pyverge.Registry.Hooks.{removed, put_hooks, remove_first}
use pyverge.Registry.Requests.{
  resolve_ends, bind_ends, make_version_edge, remove_all, removable, given,
}
use pyverge.Registry.Kinds.{
  any_outside, drop_hooks, remove_each, remove_edges, passed, remove_models, inside, as_key,
  reversed,
}
use pyverge.Registry.Preserved.{
  LeavesSound, leaves, if-LeavesSound, and_then-LeavesSound, refresh_health-IsSound,
  store-LeavesSound, remove_model-LeavesSound, put_edge-LeavesSound, remove_migration-LeavesSound,
  clear_hooks-LeavesSound,
}

module _ {V M H I F : Type 0} ⦃o : Linear V⦄ (services : Services V M H I)
    (reflection : Reflection V M F) where
  pub reconstruct_model-LeavesSound :
      (anchor : NodeEntry V) (missing : NodeId V) (func : F) (r : Registry V M H I)
      → IsSound r
      → LeavesSound (reconstruct_model services reflection anchor missing func r)
  unfolding reconstruct_model
  reconstruct_model-LeavesSound anchor missing func r s =
      if-LeavesSound (not r.reconstructs) (err model_not_found, r) _ (leaves _ r s)
        (and_then-LeavesSound (given (reflection.reconstruct anchor missing func) r)
          (store services) (leaves _ r s) (λ n r s. store-LeavesSound services n r s))

  pub resolve_ends-LeavesSound :
      (spec : MigrationSpec V F) (from to : Option (NodeEntry V)) (r : Registry V M H I)
      → IsSound r
      → LeavesSound (resolve_ends services reflection spec from to r)
  unfolding resolve_ends
  resolve_ends-LeavesSound spec none none r s = leaves _ r s
  resolve_ends-LeavesSound spec none (some to) r s =
      and_then-LeavesSound (reconstruct_model services reflection to spec.v_from spec.func r)
        (λ from r. (ok (from, to), r)) (reconstruct_model-LeavesSound to spec.v_from spec.func r s)
        (λ n r s. leaves _ r s)
  resolve_ends-LeavesSound spec (some from) none r s =
      and_then-LeavesSound (reconstruct_model services reflection from spec.v_to spec.func r)
        (λ to r. (ok (from, to), r)) (reconstruct_model-LeavesSound from spec.v_to spec.func r s)
        (λ n r s. leaves _ r s)
  resolve_ends-LeavesSound spec (some from) (some to) r s = leaves _ r s

  pub bind_ends-LeavesSound :
      (spec : MigrationSpec V F) (ends : NodeEntry V × NodeEntry V) (r : Registry V M H I)
      → IsSound r
      → LeavesSound (bind_ends services reflection spec ends r)
  unfolding bind_ends touch_kind
  bind_ends-LeavesSound spec (from, to) r s =
      and_then-LeavesSound (given (checked_edge (from_pair from to)) r) _ (leaves _ r s) (λ key r s.
        let touched = touch-AreSound from.id.kind r.by_versions r.by_kinds s in
        if-LeavesSound (not (is_adjacent (touch_kind from.id.kind r) key))
          (err catalog_error, touch_kind from.id.kind r) _
          (leaves _ (touch_kind from.id.kind r) touched)
          (and_then-LeavesSound
            (given (make_version_edge services reflection spec from to) (touch_kind from.id.kind r))
            (put_edge services) (leaves _ (touch_kind from.id.kind r) touched)
            (λ e r s. put_edge-LeavesSound services e r s)))

  pub store_spec-LeavesSound :
      (spec : MigrationSpec V F) (r : Registry V M H I)
      → IsSound r
      → LeavesSound (store_spec services reflection spec r)
  unfolding store_spec
  store_spec-LeavesSound spec r s =
      if-LeavesSound (not (text_eq spec.v_from.kind spec.v_to.kind)) (err catalog_error, r) _
        (leaves _ r s)
        (and_then-LeavesSound
          (resolve_ends services reflection spec (find_model r spec.v_from) (find_model r spec.v_to)
            r)
          (bind_ends services reflection spec)
          (resolve_ends-LeavesSound spec (find_model r spec.v_from) (find_model r spec.v_to) r s)
          (bind_ends-LeavesSound spec))

module _ {V M H I : Type 0} ⦃o : Linear V⦄ (services : Services V M H I) where
  pub remove_all-LeavesSound :
      (es : List (EdgeEntry V M)) (r : Registry V M H I)
      → IsSound r
      → LeavesSound (remove_all services es r)
  unfolding remove_all
  remove_all-LeavesSound [] r s = leaves _ r s
  remove_all-LeavesSound (e ∷ es) r s =
      and_then-LeavesSound (remove_migration services e r) (λ _ r. remove_all services es r)
        (remove_migration-LeavesSound services e r s) (λ _ r s. remove_all-LeavesSound es r s)

  pub remove_migration_range-LeavesSound :
      (from to : NodeId V) (r : Registry V M H I)
      → IsSound r
      → LeavesSound (remove_migration_range services from to r)
  unfolding remove_migration_range
  remove_migration_range-LeavesSound from to r s =
      let versions = kind_versions r from.kind in
      let lo = bisect_left node_id versions from in
      let hi = bisect_left node_id versions to in
      and_then-LeavesSound (given (removable services r versions lo (hi - lo)) r)
        (remove_all services) (leaves _ r s) (λ es r s. remove_all-LeavesSound es r s)

  pub hooked-IsSound :
      (key : EdgeEntry V M) (d : Dict (EdgeId V) (List H)) (r : Registry V M H I)
      → IsSound r
      → IsSound (refresh_health services (edge key ∷ []) (with_hooks d r))
  hooked-IsSound key d r s = refresh_health-IsSound services (edge key ∷ []) (with_hooks d r) s

  pub add_hook-IsSound :
      (key : EdgeEntry V M) (hook : H) (r : Registry V M H I)
      → IsSound r
      → IsSound (add_hook services key hook r)
  unfolding add_hook
  add_hook-IsSound key hook r s = hooked-IsSound key (append_to (edge_id key) hook r.hooks) r s

  pub remove_hook-LeavesSound :
      ⦃q : Eq H⦄ (key : EdgeEntry V M) (hook : Option H) (r : Registry V M H I)
      → IsSound r
      → LeavesSound (remove_hook services key hook r)
  unfolding remove_hook removed
  remove_hook-LeavesSound key hook r s = go (get (edge_id key) r.hooks)
    where
      taken : (hook : Option H) (found : List H) → LeavesSound (removed services key hook found r)
      taken none found = record { sound = hooked-IsSound key (del_item (edge_id key) r.hooks) r s }
      taken (some h) found =
          if-LeavesSound (contains h found) _ (err value_error, r)
            (record {
              sound =
                  hooked-IsSound key (put_hooks (edge_id key) (remove_first h found) r.hooks) r s;
            })
            (leaves _ r s)

      go :
          (found : Option (List H))
          → LeavesSound (elim found [
            | none ↦ (err catalog_error, r)
            | some hs ↦ removed services key hook hs r
          ])
      go none = leaves _ r s
      go (some hs) = taken hook hs

  pub remove_model_by_ref-LeavesSound :
      (ref : ModelRef) (r : Registry V M H I)
      → IsSound r
      → LeavesSound (remove_model_by_ref services ref r)
  unfolding remove_model_by_ref
  remove_model_by_ref-LeavesSound ref r s = go (get ref r.by_models)
    where
      go :
          (found : Option (NodeEntry V))
          → LeavesSound (elim found [
            | none ↦ (err model_not_found, r)
            | some n ↦ remove_model services n.id r
          ])
      go none = leaves _ r s
      go (some n) = remove_model-LeavesSound services n.id r s

  pub drop_hooks-LeavesSound :
      (e : EdgeEntry V M) (r : Registry V M H I) → IsSound r → LeavesSound (drop_hooks services e r)
  unfolding drop_hooks
  drop_hooks-LeavesSound e r s =
      if-LeavesSound (has_hooks r e) (clear_hooks e r) (ok tt, r)
        (clear_hooks-LeavesSound services e r s) (leaves _ r s)

  pub remove_each-LeavesSound :
      (versions : List (NodeEntry V)) (es : List (EdgeEntry V M)) (r : Registry V M H I)
      → IsSound r
      → LeavesSound (remove_each services versions es r)
  unfolding remove_each
  remove_each-LeavesSound versions [] r s = leaves _ r s
  remove_each-LeavesSound versions (e ∷ es) r s =
      if-LeavesSound (inside versions e) _ (remove_each services versions es r)
        (and_then-LeavesSound (drop_hooks services e r) _ (drop_hooks-LeavesSound e r s) (λ _ r s.
          and_then-LeavesSound (remove_migration services (as_key e) r)
            (λ _ r. remove_each services versions es r)
            (remove_migration-LeavesSound services (as_key e) r s)
            (λ _ r s. remove_each-LeavesSound versions es r s)))
        (remove_each-LeavesSound versions es r s)

  pub remove_edges-LeavesSound :
      (versions ns : List (NodeEntry V)) (r : Registry V M H I)
      → IsSound r
      → LeavesSound (remove_edges services versions ns r)
  unfolding remove_edges
  remove_edges-LeavesSound versions [] r s = leaves _ r s
  remove_edges-LeavesSound versions (n ∷ ns) r s =
      and_then-LeavesSound (remove_each services versions (migrations_of r n.id) r)
        (λ _ r. remove_edges services versions ns r)
        (remove_each-LeavesSound versions (migrations_of r n.id) r s)
        (λ _ r s. remove_edges-LeavesSound versions ns r s)

  pub passed-LeavesSound :
      (c : Call (Registry V M H I) Unit) → LeavesSound c → LeavesSound (passed services c)
  passed-LeavesSound (ok a, r) s = leaves _ r s.sound
  passed-LeavesSound (err f, r) s = leaves _ r s.sound

  pub remove_models-LeavesSound :
      (ns : List (NodeEntry V)) (r : Registry V M H I)
      → IsSound r
      → LeavesSound (remove_models services ns r)
  unfolding remove_models
  remove_models-LeavesSound [] r s = leaves _ r s
  remove_models-LeavesSound (n ∷ ns) r s =
      and_then-LeavesSound (passed services (remove_model services n.id r))
        (λ _ r. remove_models services ns r)
        (passed-LeavesSound (remove_model services n.id r)
          (remove_model-LeavesSound services n.id r s))
        (λ _ r s. remove_models-LeavesSound ns r s)

  pub delete_kind-LeavesSound :
      (kind : Text) (r : Registry V M H I) → IsSound r → LeavesSound (delete_kind services kind r)
  unfolding delete_kind
  delete_kind-LeavesSound kind r s = go (kind_versions r kind)
    where
      go :
          (versions : List (NodeEntry V))
          → LeavesSound (elim versions [
            | [] ↦ (ok tt, r)
            | n ∷ ns ↦
                if any_outside services r (n ∷ ns) (n ∷ ns)
                then (err catalog_error, r)
                else and_then
                    (remove_edges services (n ∷ ns) (n ∷ ns) r)
                    (λ _ r. remove_models services (reversed (n ∷ ns)) r)
          ])
      go [] = leaves _ r s
      go (n ∷ ns) =
          if-LeavesSound (any_outside services r (n ∷ ns) (n ∷ ns)) (err catalog_error, r) _
            (leaves _ r s)
            (and_then-LeavesSound (remove_edges services (n ∷ ns) (n ∷ ns) r)
              (λ _ r. remove_models services (reversed (n ∷ ns)) r)
              (remove_edges-LeavesSound (n ∷ ns) (n ∷ ns) r s)
              (λ _ r s. remove_models-LeavesSound (reversed (n ∷ ns)) r s))
