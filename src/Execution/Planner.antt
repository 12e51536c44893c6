-- ===== src/Execution/Planner.antt =====
-- runtime/planner.py: `ExecutionPlanner.build`, and the `ExecutionPlan` of runtime/plan.py.
use pyverge.Prelude.{ℕ, eq_nat, Option, none, some, List, [], ◌∷◌}
use pyverge.Prelude.Dict.{Dict, get, set_item}
use pyverge.Prelude.Linear.{Linear}
use pyverge.Errors.{Outcome, ok, err, key_error, ◌>>=◌}
use pyverge.Planning.{PlanEntry, levels}
use pyverge.Execution.Bindings.{MigrationBindings}
use pyverge.Execution.Entries.{PlannedEntry, ExecutionEntry, bind}

-- `PathPlan`: the entries in their order, each with its own object. The source model, which is not
-- read here, is left out.
abbrev pub PathPlan : Type 0 → Type 0
PathPlan V = List (PlanEntry (PlannedEntry V))

pub record ExecutionPlan (W V C D : Type 0) : Type 0 where
  pub path : PathPlan V
  pub payload : D
  pub plan_levels : List (List (ExecutionEntry W V C))

abbrev or_key_error : {A : Type 0} → Option A → Outcome A
or_key_error none = err key_error
or_key_error (some a) = ok a

module _ {W V C : Type 0} where
  -- `tuple(bound[id(entry)] for entry in level)`
  unfoldable pub bound_level :
      Dict ℕ (ExecutionEntry W V C) → PathPlan V → Outcome (List (ExecutionEntry W V C))
  bound_level bound [] = ok []
  bound_level bound (entry ∷ entries) = or_key_error (get entry.object bound) >>= λ e.
      bound_level bound entries >>= λ rest. ok (e ∷ rest)

  unfoldable pub bound_levels :
      Dict ℕ (ExecutionEntry W V C)
      → List (PathPlan V)
      → Outcome (List (List (ExecutionEntry W V C)))
  unfolding bound_level
  bound_levels bound [] = ok []
  bound_levels bound (level ∷ rest) =
      bound_level bound level >>= λ l. bound_levels bound rest >>= λ ls. ok (l ∷ ls)

module _ {W V C R : Type 0} ⦃o : Linear V⦄ (bindings : MigrationBindings W V C R) where
  -- `{id(entry): self._bind(entry) for entry in path.entries}`
  unfoldable pub bind_all :
      Dict ℕ (ExecutionEntry W V C) → PathPlan V → Outcome (Dict ℕ (ExecutionEntry W V C))
  unfolding bind
  bind_all bound [] = ok bound
  bind_all bound (entry ∷ entries) =
      bind bindings entry.item >>= λ e. bind_all (set_item entry.object e bound) entries

  unfoldable pub build : {D : Type 0} → PathPlan V → D → Outcome (ExecutionPlan W V C D)
  unfolding bind_all bound_levels levels
  build path payload = do
    bound ← bind_all [] path
    plan_levels ← bound_levels bound (levels path)
    ok (record { path = path; payload = payload; plan_levels = plan_levels })
