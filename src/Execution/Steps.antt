-- ===== src/Execution/Steps.antt =====
-- runtime/plan.py: `StepInvoker`, the life of one migration step. Hooks and migrations share the
-- world, in which the hook state lives; they give new values and do not change the ones they get.
use pyverge.Prelude.{List, [], ◌∷◌, ◌++◌}
use pyverge.Prelude.Text.{Text, codes}
use pyverge.Prelude.Effects.{
  Error, exception, async_required, migration_application, Result, ok, raised, Action, pure, raise,
  ◌>>=◌, ◌>>◌,
}
use pyverge.Payload.{Value}
use pyverge.Telemetry.{
  StepContext, TelemetryPublisher, step_started, step_completed, step_failed, emit_success,
  emit_failure,
}
use pyverge.Execution.Scopes.{Scope, with_stack, try, on_any}

-- What a call returns: a value, or an awaitable (`inspect.isawaitable`).
pub data Returned (W A : Type 0) : Type 0 where
  now : A → Returned W A
  later : Action W A → Returned W A

-- What `before_migrate` gives: None, a scope, or one with `__aenter__`.
pub data Given (W : Type 0) : Type 0 where
  nothing : Given W
  scope async_scope : Scope W → Given W

-- `MigrationHook`
pub record Hook (W V : Type 0) : Type 0 where
  pub before_migrate : StepContext V → Value → Action W (Returned W (Given W))
  pub after_migrate : StepContext V → Value → Value → Action W (Returned W Unit)
  pub on_error : StepContext V → Value → Error → Action W (Returned W Unit)

abbrev pub async_hook : Error
async_hook = exception async_required (codes "async hook requires async backend")

abbrev pub async_hook_scope : Error
async_hook_scope = exception async_required (codes "async hook scope requires async backend")

abbrev pub coroutine : Error
coroutine = exception async_required (codes "coroutine migration requires async backend")

-- The entry of which a step is part: `str` of an exception, and the entry's source and target as
-- the message of `migration_error` shows them.
pub record Naming : Type 0 where
  pub str : Error → Text
  pub source : Text
  pub target : Text

-- `ExecutionEntry.migration_error`
unfoldable pub migration_error : Naming → Error → Error
migration_error names error = exception migration_application (
    codes "Failed to apply migration "
    ++ (names.source ++ (codes "->" ++ (names.target ++ (codes ": " ++ names.str error)))))

-- `if isinstance(error, (AsyncExecutionRequired, MigrationApplicationError)): raise`, and else
-- `raise self.entry.migration_error(error)`
unfoldable pub classified : Naming → Error → Error
classified names (exception async_required t) = exception async_required t
classified names (exception migration_application t) = exception migration_application t
classified names error = migration_error names error

module _ {W A : Type 0} where
  -- `_raise_on_awaitable`; closing a coroutine that never ran changes nothing.
  unfoldable pub raise_on_awaitable : Error → Returned W A → Action W A
  raise_on_awaitable error (now a) = pure a
  raise_on_awaitable error (later m) = raise error

  -- `await result if inspect.isawaitable(result) else result`
  unfoldable pub resolve : Returned W A → Action W A
  resolve (now a) = pure a
  resolve (later m) = m

module _ {W V : Type 0} where
  -- `ExecutionEntry.invoke_hook`: every hook of the step is called before a result is looked at.
  unfoldable pub invoke_hook :
      {A : Type 0} → (Hook W V → Action W A) → List (Hook W V) → Action W (List A)
  invoke_hook phase [] = pure []
  invoke_hook phase (hook ∷ hooks) = do
    result ← phase hook
    results ← invoke_hook phase hooks
    pure (result ∷ results)

abbrev pub Stacked : Type 0 → Type 0
Stacked W = List (Scope W) → W → (Result (Unit {0}) × List (Scope W)) × W

module _ {W : Type 0} where
  -- `for result in ...: check(result)`
  unfoldable pub each : {A : Type 0} → (A → Action W Unit) → List A → Action W Unit
  each check [] = pure tt
  each check (result ∷ results) = check result >> each check results

  -- `stack.enter_context(scope)`: a scope whose entry raises is not on the stack.
  abbrev pub entered :
      Scope W
      → List (Scope W)
      → Stacked W
      → Result (Unit {0}) × W
      → (Result (Unit {0}) × List (Scope W)) × W
  entered s stack rest (ok u, w) = rest (s ∷ stack) w
  entered s stack rest (raised e, w) = ((raised e, stack), w)

  -- The loop of `before`.
  unfoldable pub enter_all : List (Returned W (Given W)) → Stacked W
  enter_all [] stack w = ((ok tt, stack), w)
  enter_all (later m ∷ results) stack w = ((raised async_hook, stack), w)
  enter_all (now (async_scope s) ∷ results) stack w = ((raised async_hook_scope, stack), w)
  enter_all (now nothing ∷ results) stack w = enter_all results stack w
  enter_all (now (scope s) ∷ results) stack w =
      let rest = λ (t : List (Scope W)). enter_all results t in entered s stack rest (s.enter w)

  abbrev pub awaited_scope :
      List (Scope W) → Stacked W → Result (Given W) × W → (Result (Unit {0}) × List (Scope W)) × W
  awaited_scope stack rest (raised e, w) = ((raised e, stack), w)
  awaited_scope stack rest (ok nothing, w) = rest stack w
  awaited_scope stack rest (ok (scope s), w) = entered s stack rest (s.enter w)
  awaited_scope stack rest (ok (async_scope s), w) = entered s stack rest (s.enter w)

  -- The loop of `before_async`.
  unfoldable pub enter_all_async : List (Returned W (Given W)) → Stacked W
  unfolding resolve
  enter_all_async [] stack w = ((ok tt, stack), w)
  enter_all_async (result ∷ results) stack w =
      let rest = λ (t : List (Scope W)). enter_all_async results t in
      awaited_scope stack rest (resolve result w)

  -- The hooks' results, and then the loop over them.
  abbrev pub on_results :
      (List (Returned W (Given W)) → Stacked W)
      → Result (List (Returned W (Given W))) × W
      → (Result (Unit {0}) × List (Scope W)) × W
  on_results loop (ok results, w) = loop results [] w
  on_results loop (raised e, w) = ((raised e, []), w)

-- `hooks` reads `self.entry.hooks[self.index]`.
module _ {W V : Type 0} (names : Naming) (telemetry : TelemetryPublisher W V)
    (hooks : Action W (List (Hook W V))) (step : StepContext V) (value : Value) where
  abbrev pub before_results : Action W (List (Returned W (Given W)))
  before_results = hooks >>= invoke_hook (λ h. h.before_migrate step value)

  unfoldable pub before : W → (Result (Unit {0}) × List (Scope W)) × W
  unfolding invoke_hook enter_all
  before w = on_results enter_all (before_results w)

  unfoldable pub before_async : W → (Result (Unit {0}) × List (Scope W)) × W
  unfolding invoke_hook enter_all_async
  before_async w = on_results enter_all_async (before_results w)

  unfoldable pub after : Value → Action W Unit
  unfolding invoke_hook each raise_on_awaitable
  after migrated = do
    found ← hooks
    results ← invoke_hook (λ h. h.after_migrate step value migrated) found
    each (raise_on_awaitable async_hook) results

  unfoldable pub after_async : Value → Action W Unit
  unfolding invoke_hook each resolve
  after_async migrated = do
    found ← hooks
    results ← invoke_hook (λ h. h.after_migrate step value migrated) found
    each resolve results

  unfoldable pub on_error : Error → Action W Unit
  unfolding invoke_hook each raise_on_awaitable
  on_error error = do
    found ← hooks
    results ← invoke_hook (λ h. h.on_error step value error) found
    each (raise_on_awaitable async_hook) results

  unfoldable pub on_error_async : Error → Action W Unit
  unfolding invoke_hook each resolve
  on_error_async error = do
    found ← hooks
    results ← invoke_hook (λ h. h.on_error step value error) found
    each resolve results

  module _ (invoke : Action W (Returned W Value)) where
    -- `migrated = invoke()` in its `try` block.
    unfoldable pub migrate : Action W Value
    unfolding on_error raise_on_awaitable classified
    migrate =
        try (invoke >>= raise_on_awaitable coroutine)
          (λ error. on_error error >> raise (classified names error))

    -- `await invoke()` in its `try` block, where `invoke` awaits what the migration returned.
    unfoldable pub migrate_async : Action W Value
    unfolding on_error_async resolve classified
    migrate_async =
        try (invoke >>= resolve) (λ error. on_error_async error >> raise (classified names error))

    -- What both do around the block.
    unfoldable pub reported_run : Action W Value → Action W Value
    reported_run block = do
      emit_success telemetry (step_started step)
      migrated ← on_any block (λ error. emit_failure telemetry (step_failed step error))
      emit_success telemetry (step_completed step)
      pure migrated

    unfoldable pub run_sync : Action W Value
    unfolding reported_run with_stack before migrate after
    run_sync = reported_run (with_stack before do migrated ← migrate; after migrated; pure migrated)

    unfoldable pub run_async : Action W Value
    unfolding reported_run with_stack before_async migrate_async after_async
    run_async =
        reported_run
          (with_stack before_async do migrated ← migrate_async; after_async migrated; pure migrated)
