-- ===== src/Execution/Entries.antt =====
-- runtime/plan.py: `ExecutionEntry` runs the steps of one entry; runtime/planner.py binds it;
-- runtime/strategies.py calls the migrations.
use pyverge.Prelude.{ℕ, zero, suc, none, some, List, [], ◌∷◌, map, length, get_elem?}
use pyverge.Prelude.Text.{Text, codes}
use pyverge.Prelude.Linear.{Linear}
use pyverge.Prelude.Effects.{exception, plain, Action, pure, raise, ◌>>=◌}
use pyverge.Errors
use pyverge.Identity.{NodeId, EdgeId}
use pyverge.Planning.{Step, key}
use pyverge.Payload.{Value, text, dict, put_field}
use pyverge.Telemetry.{StepContext, TelemetryPublisher}
use pyverge.Execution.{EntryResult}
use pyverge.Execution.Steps.{Returned, later, resolve, Hook, Naming, run_sync, run_async}
use pyverge.Execution.Bindings.{MigrationBinding, HookBinding, MigrationBindings}
use pyverge.Execution.Bindings

-- What the entry reads of its `PathPlanEntry`.
pub record PlannedEntry (V : Type 0) : Type 0 where
  pub path : List Step
  pub source : NodeId V
  pub target : NodeId V
  pub steps : List (NodeId V × NodeId V)
  pub edges : List (EdgeId V)

pub record ExecutionEntry (W V C : Type 0) : Type 0 where
  pub plan : PlannedEntry V
  pub migrations : List (MigrationBinding W C)
  pub hooks : List (List (Hook W V))

-- `if isinstance(current, dict): current[adapter.version_property] = str(step.target.version)`
unfoldable pub stamped : Text → Text → Value → Value
unfolding put_field
stamped property version (dict fs) = dict (put_field fs (key property) (text version))
stamped property version v = v

-- `items[index]`
abbrev pub item : {W A : Type 0} → List A → ℕ → Action W A
item l i = elim (get_elem? l i) [
  | none ↦ raise (exception plain (codes "tuple index out of range"))
  | some a ↦ pure a
]

-- The run: its identity and the view of its bindings, the adapter's property, `str` of a version,
-- and the names of `migration_error`.
pub record Run (W V C : Type 0) : Type 0 where
  pub run_id : Text
  pub telemetry : TelemetryPublisher W V
  pub view : C
  pub version_property : Text
  pub show : V → Text
  pub names : NodeId V → NodeId V → Naming

module _ {W V C : Type 0} (run : Run W V C) (entry : ExecutionEntry W V C) where
  -- `step_context`
  unfoldable pub step_context : ℕ → Action W (StepContext V)
  step_context index = do
    ends ← item entry.plan.steps index
    edge ← item entry.plan.edges index
    migration ← item entry.migrations index
    pure (record {
      run_id = run.run_id;
      path = entry.plan.path;
      index = index;
      source = ends.0;
      target = ends.1;
      edge = edge;
      name = migration.name;
    })

  -- `ThreadedStrategy.invoke` of the step's migration.
  unfoldable pub invoke : ℕ → Value → Action W (Returned W Value)
  invoke index current = do migration ← item entry.migrations index; migration.func current run.view

  -- `AsyncStrategy.invoke`, a coroutine that awaits what the migration returns.
  unfoldable pub invoke_async : ℕ → Value → Action W (Returned W Value)
  unfolding invoke resolve
  invoke_async index current = pure (later (invoke index current >>= resolve))

  -- One round of the loops of `execute_sync` and `execute_async`.
  module _
      (runner : Naming
        → TelemetryPublisher W V
        → Action W (List (Hook W V))
        → StepContext V
        → Value
        → Action W (Returned W Value)
        → Action W Value)
      (invoker : ℕ → Value → Action W (Returned W Value)) where
    unfoldable pub round : ℕ → Value → Action W Value
    unfolding step_context stamped
    round index current = do
      step ← step_context index
      migrated ←
          runner (run.names entry.plan.source entry.plan.target) run.telemetry
            (item entry.hooks index) step current (invoker index current)
      pure (stamped run.version_property (run.show step.target.version) migrated)

    -- `for index in range(len(self.steps))`, with so many rounds left.
    unfoldable pub loop : ℕ → ℕ → Value → Action W Value
    unfolding round
    loop zero index current = pure current
    loop (suc n) index current = do migrated ← round index current; loop n (suc index) migrated

  unfoldable pub execute_sync : Value → Action W EntryResult
  unfolding loop invoke run_sync
  execute_sync value = do
    current ← loop run_sync invoke (length entry.plan.steps) 0 value
    pure (record { path = entry.plan.path; value = current })

  unfoldable pub execute_async : Value → Action W EntryResult
  unfolding loop invoke_async run_async
  execute_async value = do
    current ← loop run_async invoke_async (length entry.plan.steps) 0 value
    pure (record { path = entry.plan.path; value = current })

-- `ExecutionPlanner._bind`
module _ {W V C R : Type 0} ⦃o : Linear V⦄ (bindings : MigrationBindings W V C R) where
  resolve_all : List (EdgeId V) → Errors.Outcome (List (MigrationBinding W C))
  resolve_all [] = Errors.ok []
  resolve_all (edge ∷ edges) =
      Errors.◌>>=◌ (Bindings.resolve edge bindings)
        (λ m. Errors.◌>>=◌ (resolve_all edges) (λ ms. Errors.ok (m ∷ ms)))

  unfoldable pub bind : PlannedEntry V → Errors.Outcome (ExecutionEntry W V C)
  unfolding resolve_all Bindings.resolve Bindings.hooks
  bind plan = Errors.◌>>=◌ (resolve_all plan.edges) (λ ms. Errors.ok (record {
    plan = plan;
    migrations = ms;
    hooks = map (λ edge. map (λ h. h.hook) (Bindings.hooks edge bindings)) plan.edges;
  }))
