-- ===== src/Registry/Hooks.antt =====
-- core/registry/memory.py: the hooks that are registered for migrations.
use pyverge.Prelude.{Bool, Option, none, some, List, [], ◌∷◌, ◌++◌, Eq, ◌==◌, if◌then◌else◌}
use pyverge.Prelude.Dict.{Dict, get, set_item, del_item, has_key}
use pyverge.Prelude.Linear.{Linear}
use pyverge.Prelude.Groups.{bucket, contains, append_to}
use pyverge.Errors.{ok, err, catalog_error, value_error}
use pyverge.Identity.{EdgeId}
use pyverge.Identity.Order.{linear_edge, eq_edge}
use pyverge.Registry.{EdgeEntry, edge_id, edge, Registry, Services, Call}
use pyverge.Registry.Health.{refresh_health}

-- `items.remove(item)`: the first one.
abbrev pub remove_first : {H : Type 0} → ⦃q : Eq H⦄ → H → List H → List H
remove_first h [] = []
remove_first h (x ∷ xs) = let rest = remove_first h xs in if x == h then xs else x ∷ rest

abbrev pub all_values {ℓ} : {K A : Type ℓ} → Dict K (List A) → List A
all_values [] = []
all_values ((k, xs) ∷ d) = xs ++ all_values d

module _ {V M H I : Type 0} where
  abbrev pub with_hooks : Dict (EdgeId V) (List H) → Registry V M H I → Registry V M H I
  with_hooks hooks r = record {
    namespace = r.namespace;
    reconstructs = r.reconstructs;
    digest_index = r.digest_index;
    by_versions = r.by_versions;
    by_kinds = r.by_kinds;
    by_models = r.by_models;
    migrations = r.migrations;
    edges_by_version = r.edges_by_version;
    hooks = hooks;
    health = r.health;
  }

-- What is left of a key's hooks: an empty list is deleted.
module _ {V H : Type 0} ⦃o : Linear V⦄ where
  abbrev pub put_hooks : EdgeId V → List H → Dict (EdgeId V) (List H) → Dict (EdgeId V) (List H)
  put_hooks key [] d = del_item key d
  put_hooks key (h ∷ hs) d = set_item key (h ∷ hs) d

module _ {V M H I : Type 0} ⦃o : Linear V⦄ where
  unfoldable pub has_hooks : Registry V M H I → EdgeEntry V M → Bool
  unfolding has_key
  has_hooks r key = has_key (edge_id key) r.hooks

  unfoldable pub get_hooks : Registry V M H I → EdgeEntry V M → List H
  unfolding bucket
  get_hooks r key = bucket (edge_id key) r.hooks

  -- `hooks(key)`: the dictionary makes, and keeps, an empty list of a key that is not there.
  unfoldable pub hooks : Option (EdgeEntry V M) → Registry V M H I → List H × Registry V M H I
  unfolding bucket
  hooks none r = (all_values r.hooks, r)
  hooks (some key) r =
      let found = bucket (edge_id key) r.hooks in
      (found, with_hooks (set_item (edge_id key) found r.hooks) r)

  -- `clear_hooks()`
  unfoldable pub clear_all_hooks : Registry V M H I → Registry V M H I
  clear_all_hooks r = with_hooks [] r

  -- `clear_hooks(key)`
  unfoldable pub clear_hooks : EdgeEntry V M → Registry V M H I → Call (Registry V M H I) Unit
  unfolding has_hooks
  clear_hooks key r =
      if has_hooks r key
      then (ok tt, with_hooks (del_item (edge_id key) r.hooks) r)
      else (err catalog_error, r)

  module _ (services : Services V M H I) where
    unfoldable pub add_hook : EdgeEntry V M → H → Registry V M H I → Registry V M H I
    unfolding append_to refresh_health
    add_hook key hook r =
        refresh_health services (edge key ∷ [])
          (with_hooks (append_to (edge_id key) hook r.hooks) r)

    module _ ⦃q : Eq H⦄ where
      unfoldable pub removed :
          EdgeEntry V M → Option H → List H → Registry V M H I → Call (Registry V M H I) Unit
      unfolding refresh_health contains
      removed key none found r = (
        ok tt,
        refresh_health services (edge key ∷ []) (with_hooks (del_item (edge_id key) r.hooks) r),
      )
      removed key (some hook) found r =
          if contains hook found
          then (
            ok tt,
            refresh_health services (edge key ∷ [])
                (with_hooks (put_hooks (edge_id key) (remove_first hook found) r.hooks) r),
          )
          else (err value_error, r)

      unfoldable pub remove_hook :
          EdgeEntry V M → Option H → Registry V M H I → Call (Registry V M H I) Unit
      unfolding removed get
      remove_hook key hook r = elim (get (edge_id key) r.hooks) [
        | none ↦ (err catalog_error, r)
        | some found ↦ removed key hook found r
      ]
