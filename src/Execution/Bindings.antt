-- ===== src/Execution/Bindings.antt =====
-- runtime/migrations.py: `MigrationBindings`, the callables and hooks bound to the edges.
use pyverge.Prelude.{Bool, not, Option, none, some, List, [], ◌∷◌, ◌++◌, keep_if}
use pyverge.Prelude.Text.{Text}
use pyverge.Prelude.Dict.{Dict, get, set_item, del_item}
use pyverge.Prelude.Effects.{Action}
use pyverge.Prelude.Linear.{Linear}
use pyverge.Errors.{Outcome, ok, err, migration_not_found}
use pyverge.Identity.{EdgeId}
use pyverge.Identity.Order.{linear_edge, eq_edge}
use pyverge.Payload.{Value}
use pyverge.Execution.Steps.{Returned, Hook}

-- `C` is the mapping that a step hands to a migration. `name` is `__name__`, or the descriptor's
-- identity.
pub record MigrationBinding (W C : Type 0) : Type 0 where
  pub func : Value → C → Action W (Returned W Value)
  pub name : Text

-- `R` is the hook's reference, `HookRef`.
pub record HookBinding (W V R : Type 0) : Type 0 where
  pub hook : Hook W V
  pub ref : R

pub record MigrationBindings (W V C R : Type 0) : Type 0 where
  pub migrations : Dict (EdgeId V) (MigrationBinding W C)
  pub hooks_by_edge : Dict (EdgeId V) (List (HookBinding W V R))

abbrev pub or_empty : {A : Type 0} → Option (List A) → List A
or_empty none = []
or_empty (some l) = l

abbrev or_not_found :
    {W C : Type 0} → Option (MigrationBinding W C) → Outcome (MigrationBinding W C)
or_not_found none = err migration_not_found
or_not_found (some m) = ok m

-- `if not self.hooks_by_edge[edge]: del self.hooks_by_edge[edge]`, after the list is replaced.
abbrev pub replaced :
    {W V R : Type 0} ⦃o : Linear V⦄
    → EdgeId V
    → List (HookBinding W V R)
    → Dict (EdgeId V) (List (HookBinding W V R))
    → Dict (EdgeId V) (List (HookBinding W V R))
replaced edge [] d = del_item edge d
replaced edge (h ∷ l) d = set_item edge (h ∷ l) d

module _ {W V C R : Type 0} ⦃o : Linear V⦄ where
  unfoldable pub store_migration :
      EdgeId V → MigrationBinding W C → MigrationBindings W V C R → MigrationBindings W V C R
  store_migration edge binding b = record b { migrations = set_item edge binding b.migrations }

  -- `self.hooks_by_edge.setdefault(edge, []).append(binding)`
  unfoldable pub add_hook :
      EdgeId V → HookBinding W V R → MigrationBindings W V C R → MigrationBindings W V C R
  add_hook edge binding b = record b {
    hooks_by_edge =
        set_item edge (or_empty (get edge b.hooks_by_edge) ++ binding ∷ []) b.hooks_by_edge;
  }

  unfoldable pub resolve : EdgeId V → MigrationBindings W V C R → Outcome (MigrationBinding W C)
  resolve edge b = or_not_found (get edge b.migrations)

  unfoldable pub hooks : EdgeId V → MigrationBindings W V C R → List (HookBinding W V R)
  hooks edge b = or_empty (get edge b.hooks_by_edge)

  unfoldable pub remove_migration : EdgeId V → MigrationBindings W V C R → MigrationBindings W V C R
  remove_migration edge b = record {
    migrations = del_item edge b.migrations;
    hooks_by_edge = del_item edge b.hooks_by_edge;
  }

  abbrev without :
      (R → R → Bool)
      → EdgeId V
      → R
      → Option (List (HookBinding W V R))
      → MigrationBindings W V C R
      → MigrationBindings W V C R
  without same edge ref none b = b
  without same edge ref (some l) b = record b {
    hooks_by_edge = replaced edge (keep_if (λ x. not (same x.ref ref)) l) b.hooks_by_edge;
  }

  unfoldable pub remove_hook :
      (R → R → Bool) → EdgeId V → R → MigrationBindings W V C R → MigrationBindings W V C R
  remove_hook same edge ref b = without same edge ref (get edge b.hooks_by_edge) b

  unfoldable pub clear_hooks :
      Option (EdgeId V) → MigrationBindings W V C R → MigrationBindings W V C R
  clear_hooks none b = record b { hooks_by_edge = [] }
  clear_hooks (some edge) b = record b { hooks_by_edge = del_item edge b.hooks_by_edge }
