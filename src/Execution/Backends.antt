-- ===== src/Execution/Backends.antt =====
-- runtime/backends/: the backends go through a plan level by level. `ThreadedBackend` is taken with
-- one worker, where it runs the entries of a level in turn, and `AsyncBackend` likewise; the
-- process backend differs from the first in the strategy only.
use pyverge.Prelude.{List, [], ◌∷◌}
use pyverge.Prelude.Text.{codes}
use pyverge.Prelude.Effects.{exception, plain, Action, pure, raise, ◌>>=◌}
use pyverge.Errors.{Outcome, Fault, type_error, key_error, index_error, value_error}
use pyverge.Errors
use pyverge.Planning.{Step}
use pyverge.Payload.{Value}
use pyverge.Middleware.{value, awaitable, Backend}
use pyverge.Execution.{EntryResult, entry_value, apply_results}
use pyverge.Execution.Entries.{ExecutionEntry, Run, execute_sync, execute_async}

-- Payload access that raises, in a run.
unfoldable pub lifted : {W A : Type 0} → Outcome A → Action W A
lifted (Errors.ok a) = pure a
lifted (Errors.err type_error) = raise (exception plain (codes "TypeError"))
lifted (Errors.err key_error) = raise (exception plain (codes "KeyError"))
lifted (Errors.err index_error) = raise (exception plain (codes "IndexError"))
lifted (Errors.err e) = raise (exception plain (codes "ValueError"))

-- `X` is an entry, `path_of` its path, and `execute_entry` how the backend executes it.
module _ {W X : Type 0} (path_of : X → List Step)
    (execute_entry : X → Value → Action W EntryResult) where
  -- `self._run_entry(entry, plan, data, run, adapter, hook_state) for entry in level`
  unfoldable pub run_level : Value → List X → Action W (List EntryResult)
  unfolding lifted entry_value
  run_level data' [] = pure []
  run_level data' (entry ∷ level) = do
    current ← lifted (entry_value data' (path_of entry))
    result ← execute_entry entry current
    results ← run_level data' level
    pure (result ∷ results)

  -- `for level in plan.levels`
  unfoldable pub run_levels : Value → List (List X) → Action W Value
  unfolding run_level lifted apply_results
  run_levels data' [] = pure data'
  run_levels data' (level ∷ levels) = do
    results ← run_level data' level
    updated ← lifted (apply_results data' results)
    run_levels updated levels

-- `ExecutionPlan`: the levels of entries, and the payload that was planned.
pub record ExecutionPlan (W V C : Type 0) : Type 0 where
  pub levels : List (List (ExecutionEntry W V C))
  pub payload : Value

-- What a call hands to a backend beside its identity: the plan, the payload and the run.
pub record Job (W V C : Type 0) : Type 0 where
  pub plan : ExecutionPlan W V C
  pub payload : Value
  pub run : Run W V C

module _ {W V C : Type 0} where
  abbrev entry_path : ExecutionEntry W V C → List Step
  entry_path entry = entry.plan.path

  -- `ThreadedBackend.execute`
  unfoldable pub threaded : Backend W (Job W V C) Value
  unfolding run_levels execute_sync
  threaded = record {
    class_name = codes "ThreadedBackend";
    execute = λ call. do
      data' ←
          run_levels entry_path (execute_sync call.payload.run) call.payload.payload
            call.payload.plan.levels
      pure (value data');
  }

  -- `AsyncBackend.execute`, a coroutine.
  unfoldable pub asynchronous : Backend W (Job W V C) Value
  unfolding run_levels execute_async
  asynchronous = record {
    class_name = codes "AsyncBackend";
    execute = λ call. pure (
        awaitable (
          run_levels entry_path (execute_async call.payload.run) call.payload.payload
            call.payload.plan.levels));
  }
