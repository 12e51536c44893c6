-- ===== src/Registry/Tests.antt =====
-- Runs of the registry, for tests, without health rules.
use pyverge.Prelude.{
  eq_nat, ℕ, ◌≡◌, refl, true, false, none, some, List, [], ◌∷◌, ◌⊎◌, if◌then◌else◌, ◌==◌,
}
use pyverge.Prelude.Text.{codes}
use pyverge.Prelude.Dict.{get, set_item, del_item}
use pyverge.Prelude.Linear.{linear_nat}
use pyverge.Prelude.Sorted.{find_at, bisect_left, insort_left, remove_at}
use pyverge.Prelude.Groups.{bucket}
use pyverge.Errors.{ok, err, catalog_error, model_already_registered}
use pyverge.Identity.{NodeId, NodeEntry, is_model}
use pyverge.Identity.Order.{linear_node, linear_edge, eq_node, eq_edge}
use pyverge.Registry.{init, EdgeEntry, no_health, Registry, Services}
use pyverge.Registry.Health
use pyverge.Registry.Nodes.{find_entry, store, remove_entry, hydrate, remove_model, migrations_of}
use pyverge.Registry.Hooks.{has_hooks}
use pyverge.Registry.Requests.{from_pair, Reflection}
use pyverge.Registry.Invariant.{IsSound, store-IsSound, find_entry-store}
use pyverge.Registry.Hydration.{IsHydrated, hydrate-IsHydrated}
use pyverge.Registry.Reachable.{
  Command, store_entry, hydrate_entry, store_key, remove_version, read_hooks, clear_all_models,
  perform_all, perform_all-IsSound,
}
use pyverge.Registry.Removal.{find_entry-remove_model}

-- Edges carry a number, hooks and health issues are numbers.
abbrev State : Type 0
State = Registry ℕ ℕ ℕ ℕ

abbrev services : Services ℕ ℕ ℕ ℕ
services = record { digest = λ e. codes "digest"; linters = [] }

abbrev user : ℕ → NodeId ℕ
user v = record { namespace = codes "n"; kind = codes "User"; version = v }

abbrev bare : ℕ → NodeEntry ℕ
bare v = record { id = user v; descriptor = none }

abbrev model : ℕ → NodeEntry ℕ
model v = record {
  id = user v;
  descriptor = some (record {
    ref = record { provider_id = codes "p"; entity_id = codes "U" };
    fields = codes "name" ∷ [];
    references = [];
  });
}

abbrev empty : State
empty = record {
  namespace = codes "n";
  reconstructs = true;
  digest_index = none;
  by_versions = [];
  by_kinds = [];
  by_models = [];
  migrations = [];
  edges_by_version = [];
  hooks = [];
  health = no_health;
}

-- Two entries, the second by its key only.
abbrev two : State
two = record {
  namespace = codes "n";
  reconstructs = true;
  digest_index = none;
  by_versions = model 1 ∷ bare 2 ∷ [];
  by_kinds = (codes "User", model 1 ∷ bare 2 ∷ []) ∷ [];
  by_models = (record { provider_id = codes "p"; entity_id = codes "U" }, model 1) ∷ [];
  migrations = [];
  edges_by_version = [];
  hooks = [];
  health = no_health;
}

empty-IsSound : IsSound empty
unfolding bucket get
empty-IsSound = record { sorted = tt; by_kind = λ kind. refl }

-- The same registry by calls of `store`.
abbrev stored : State
stored = (store services (bare 2) (store services (model 1) empty).1).1

stored-IsSound : IsSound stored
stored-IsSound =
    store-IsSound services (bare 2) (store services (model 1) empty).1
      (store-IsSound services (model 1) empty empty-IsSound)

find_entry-store_example :
    ((find_entry stored (user 3) ≡ none)
      × ((store services (model 3) stored).0 ≡ ok (model 3))
      × (find_entry (store services (model 3) stored).1 (user 1)
          ≡ (if user 3 == user 1 then some (model 3) else find_entry stored (user 1))))
    ⊎ (((m : NodeEntry ℕ) × (find_entry stored (user 3) ≡ some m))
        × (store services (model 3) stored ≡ (err model_already_registered, stored)))
find_entry-store_example = find_entry-store services (model 3) (user 1) stored stored-IsSound

hydrated : (hydrate services (model 2) stored).0 ≡ ok (model 2)
unfolding hydrate store find_entry find_at bisect_left insort_left is_model remove_entry remove_at
    bucket get set_item del_item Health.refresh_health Health.drop_entity Health.refresh_one
    Health.affected_by_node_change
hydrated = refl

hydrate-IsHydrated_example :
    IsHydrated services (user 2) (model 2) stored (hydrate services (model 2) stored).1
hydrate-IsHydrated_example =
    hydrate-IsHydrated services (model 2) (model 2) stored stored-IsSound hydrated

find_entry-remove_model_example :
    IsSound (remove_model services (user 1) stored).1
    × ((((find_entry stored (user 1) ≡ none)
            ⊎ ((e : EdgeEntry ℕ ℕ) × (es : List (EdgeEntry ℕ ℕ)) × (migrations_of stored (user 1)
                  ≡ e ∷ es)))
          × ((remove_model services (user 1) stored).0 ≡ err catalog_error)
          × ((j : NodeId ℕ)
              → find_entry (remove_model services (user 1) stored).1 j ≡ find_entry stored j))
        ⊎ (((x : NodeEntry ℕ) × (find_entry stored (user 1) ≡ some x))
            × (migrations_of stored (user 1) ≡ [])
            × ((remove_model services (user 1) stored).0 ≡ ok tt)
            × ((j : NodeId ℕ)
                → find_entry (remove_model services (user 1) stored).1 j
                  ≡ (if user 1 == j then none else find_entry stored j))))
find_entry-remove_model_example = find_entry-remove_model services (user 1) stored stored-IsSound

abbrev key12 : EdgeEntry ℕ ℕ
key12 = from_pair (bare 1) (bare 2)

free : has_hooks empty key12 ≡ false
unfolding has_hooks get
free = refl

abbrev reflection : Reflection ℕ ℕ ℕ
reflection = record {
  reconstruct = λ anchor missing func. ok (record { id = missing; descriptor = anchor.descriptor });
  resolve = λ source target func. ok func;
}

known : find_entry two (user 2) ≡ some (bare 2)
unfolding find_entry find_at bisect_left
known = refl

-- Two versions come, the second by its key only, and an edge; then one call that raises.
abbrev script : List (Command ℕ ℕ ℕ ℕ)
script =
    store_entry (model 1)
    ∷ store_entry (bare 2)
    ∷ store_key (from_pair (model 1) (bare 2))
    ∷ store_entry (model 1)
    ∷ hydrate_entry (model 2)
    ∷ read_hooks (some key12)
    ∷ remove_version (user 1)
    ∷ clear_all_models
    ∷ []

perform_all-IsSound_example : IsSound (perform_all services reflection script empty)
unfolding init
perform_all-IsSound_example =
    perform_all-IsSound services reflection (codes "n") true false empty script refl

bare2 : is_model (bare 2) ≡ false
unfolding is_model
bare2 = refl
