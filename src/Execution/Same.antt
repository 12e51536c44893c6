-- ===== src/Execution/Same.antt =====
-- The two backends do the same to an entry that awaits nothing.
use pyverge.Prelude.{ℕ, zero, suc, ◌≡◌, refl, List, [], ◌∷◌, All, length}
use pyverge.Prelude.Effects.{pure, ◌>>=◌}
use pyverge.Payload.{Value}
use pyverge.Telemetry.{StepContext}
use pyverge.Execution.Steps.{run_sync, run_async}
use pyverge.Execution.Bindings.{MigrationBinding}
use pyverge.Execution.Blocks.{Ensures-bind}
use pyverge.Execution.Modes.{IsNow, IsPlainHook, Gives, blind, run_async-later}
use pyverge.Execution.Entries.{
  ExecutionEntry, Run, item, step_context, invoke, invoke_async, round, loop, stamped, execute_sync,
  execute_async,
}

module _ {W V C : Type 0} (run : Run W V C) (entry : ExecutionEntry W V C)
    (plain_hooks : All (λ l. All IsPlainHook l) entry.hooks)
    (plain_migrations : All
      (λ m. (v : Value) (c : C) → Gives IsNow (m.func v c))
      entry.migrations) where
  Gives-item :
      {A : Type 0} (P : A → Type 0) (l : List A) (i : ℕ) → All P l → Gives {W = W} P (item l i)
  Gives-item P [] i h = λ w. (refl, tt)
  Gives-item P (a ∷ l) zero h = λ w. (refl, h.0)
  Gives-item P (a ∷ l) (suc i) h = Gives-item P l i h.1

  Gives-invoke : (i : ℕ) (v : Value) → Gives IsNow (invoke run entry i v)
  unfolding invoke
  Gives-invoke i v =
      Ensures-bind blind
        (λ (m : MigrationBinding W C). (v : Value) (c : C) → Gives IsNow (m.func v c)) IsNow
        (item entry.migrations i) _ (Gives-item _ entry.migrations i plain_migrations)
        (λ m p. p v run.view)

  round_cong :
      (i : ℕ) (v : Value)
      → round run entry run_async (invoke_async run entry) i v
        ≡ round run entry run_sync (invoke run entry) i v
  unfolding round invoke_async
  round_cong i v =
      let same = λ (step : StepContext V).
        run_async-later (run.names entry.plan.source entry.plan.target) run.telemetry
          (item entry.hooks i) step v (invoke run entry i v)
          (Gives-item (λ l. All IsPlainHook l) entry.hooks i plain_hooks) (Gives-invoke i v) in
      λ j. step_context run entry i >>= λ step. same step j >>= λ migrated.
      pure (stamped run.version_property (run.show step.target.version) migrated)

  loop_cong :
      (n i : ℕ) (v : Value)
      → loop run entry run_async (invoke_async run entry) n i v
        ≡ loop run entry run_sync (invoke run entry) n i v
  unfolding loop
  loop_cong zero i v = refl
  loop_cong (suc n) i v = λ j. round_cong i v j >>= λ m. loop_cong n (suc i) m j

  -- An entry whose hooks and migrations return no awaitable and no asynchronous scope is executed
  -- by `execute_async` exactly as by `execute_sync`: the same result or error and the same world.
  pub execute_async-execute_sync :
      (v : Value) → execute_async run entry v ≡ execute_sync run entry v
  unfolding execute_async execute_sync
  execute_async-execute_sync v = λ j. loop_cong (length entry.plan.steps) 0 v j >>= λ current.
      pure (record { path = entry.plan.path; value = current })
