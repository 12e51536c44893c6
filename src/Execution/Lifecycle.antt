-- ===== src/Execution/Lifecycle.antt =====
-- `run_sync` and `run_async`: what a step keeps, and what it reports.
use pyverge.Prelude.{◌≡◌, List, [], All}
use pyverge.Prelude.Effects.{Error, Result, ok, raised, Action, pure, raise, ◌>>=◌, ◌>>◌}
use pyverge.Payload.{Value}
use pyverge.Telemetry.{StepContext, TelemetryPublisher}
use pyverge.Execution.Scopes.{with_stack}
use pyverge.Execution.Steps.{
  Returned, Given, Hook, Naming, invoke_hook, enter_all, enter_all_async, before, before_async,
  after, after_async, on_error, on_error_async, migrate, migrate_async, on_results, Stacked,
  coroutine, async_hook, classified, before_results,
}
use pyverge.Execution.Kept.{
  IsGiven, KeepsReturned, Yields, Entered, Entered-enter_all, Entered-enter_all_async,
}
use pyverge.Execution.Blocks.{
  Ensures, Any, Ensures-bind, Ensures-pure, Ensures-raise, Ensures-try, Ensures-each,
  Ensures-resolve, Ensures-raise_on_awaitable, Ensures-with_stack, Ensures-invoke_hook, IsKeptHook,
}

module _ {W V K : Type 0} (f : W → K) (names : Naming) (telemetry : TelemetryPublisher W V)
    (hooks : Action W (List (Hook W V))) (step : StepContext V) (value : Value)
    (kept : Ensures f (All (IsKeptHook f)) hooks) where
  -- What a phase of the hooks keeps.
  phase_lem :
      {A B : Type 0} (P : A → Type 0) (Q : B → Type 0) (phase : Hook W V → Action W A)
      (k : List A → Action W B)
      → ((h : Hook W V) → IsKeptHook f h → Ensures f P (phase h))
      → ((l : List A) → All P l → Ensures f Q (k l))
      → Ensures f Q (hooks >>= λ found. invoke_hook phase found >>= k)
  phase_lem P Q phase k g c = Ensures-bind f (All (IsKeptHook f)) Q hooks _ kept (λ found p.
      Ensures-bind f (All P) Q (invoke_hook phase found) k
        (Ensures-invoke_hook f (IsKeptHook f) P phase found g p) c)

  Ensures-after : (m : Value) → Ensures f Any (after names telemetry hooks step value m)
  unfolding after
  Ensures-after m =
      phase_lem (KeepsReturned f Any) Any _ _ (λ h i. i.keeps_after step value m)
        (λ l.
          Ensures-each f (KeepsReturned f Any) _ l (Ensures-raise_on_awaitable f Any async_hook))

  Ensures-after_async : (m : Value) → Ensures f Any (after_async names telemetry hooks step value m)
  unfolding after_async
  Ensures-after_async m =
      phase_lem (KeepsReturned f Any) Any _ _ (λ h i. i.keeps_after step value m)
        (λ l. Ensures-each f (KeepsReturned f Any) _ l (Ensures-resolve f Any))

  Ensures-on_error : (e : Error) → Ensures f Any (on_error names telemetry hooks step value e)
  unfolding on_error
  Ensures-on_error e =
      phase_lem (KeepsReturned f Any) Any _ _ (λ h i. i.keeps_on_error step value e)
        (λ l.
          Ensures-each f (KeepsReturned f Any) _ l (Ensures-raise_on_awaitable f Any async_hook))

  Ensures-on_error_async :
      (e : Error) → Ensures f Any (on_error_async names telemetry hooks step value e)
  unfolding on_error_async
  Ensures-on_error_async e =
      phase_lem (KeepsReturned f Any) Any _ _ (λ h i. i.keeps_on_error step value e)
        (λ l. Ensures-each f (KeepsReturned f Any) _ l (Ensures-resolve f Any))

  Entered-results :
      (loop : List (Returned W (Given W)) → Stacked W)
      → ((l : List (Returned W (Given W))) (w : W)
          → All (KeepsReturned f (IsGiven f)) l
          → (k : K) → f w ≡ k
          → Entered f k (loop l [] w))
      → (w : W)
      → Entered f (f w) (on_results loop (before_results names telemetry hooks step value w))
  Entered-results loop h w =
      let (e, y) =
        Ensures-bind f (All (IsKeptHook f)) (All (KeepsReturned f (IsGiven f))) hooks _ kept
          (λ found p.
            Ensures-invoke_hook f (IsKeptHook f) (KeepsReturned f (IsGiven f))
              (λ x. x.before_migrate step value) found (λ x i. i.keeps_before step value) p)
          w in
      go (before_results names telemetry hooks step value w) e y
    where
      go :
          (x : Result (List (Returned W (Given W))) × W)
          → f x.1 ≡ f w
          → Yields f (All (KeepsReturned f (IsGiven f))) x.0
          → Entered f (f w) (on_results loop x)
      go (ok l, u) e y = h l u y (f w) e
      go (raised x, u) e y = (tt, e)

  Entered-before : (w : W) → Entered f (f w) (before names telemetry hooks step value w)
  unfolding before
  Entered-before = Entered-results enter_all (λ l w g k e. Entered-enter_all f k l [] g tt w e)

  Entered-before_async : (w : W) → Entered f (f w) (before_async names telemetry hooks step value w)
  unfolding before_async
  Entered-before_async =
      Entered-results enter_all_async (λ l w g k e. Entered-enter_all_async f k l [] g tt w e)

  -- What is asked of the migration that a step invokes.
  module _ (invoke : Action W (Returned W Value))
      (invoked : Ensures f (KeepsReturned f Any) invoke) where
    Ensures-migrate : Ensures f Any (migrate names telemetry hooks step value invoke)
    unfolding migrate
    Ensures-migrate =
        Ensures-try f Any _ _
          (Ensures-bind f (KeepsReturned f Any) Any invoke _ invoked
            (λ r p. Ensures-raise_on_awaitable f Any coroutine r p))
          (λ e.
            Ensures-bind f Any Any _ (λ _. raise {A = Value} (classified names e))
              (Ensures-on_error e) (λ _ _. Ensures-raise f {A = Value} Any (classified names e)))

    Ensures-migrate_async : Ensures f Any (migrate_async names telemetry hooks step value invoke)
    unfolding migrate_async
    Ensures-migrate_async =
        Ensures-try f Any _ _
          (Ensures-bind f (KeepsReturned f Any) Any invoke _ invoked
            (λ r p. Ensures-resolve f Any r p))
          (λ e.
            Ensures-bind f Any Any _ (λ _. raise {A = Value} (classified names e))
              (Ensures-on_error_async e)
              (λ _ _. Ensures-raise f {A = Value} Any (classified names e)))

    -- The block of a step, without its reports.
    abbrev pub sync_block : Action W Value
    sync_block = with_stack (before names telemetry hooks step value) do
      migrated ← migrate names telemetry hooks step value invoke
      after names telemetry hooks step value migrated
      pure migrated

    abbrev pub async_block : Action W Value
    async_block = with_stack (before_async names telemetry hooks step value) do
      migrated ← migrate_async names telemetry hooks step value invoke
      after_async names telemetry hooks step value migrated
      pure migrated

    then_after :
        (m : Action W Value) (g : Value → Action W Unit)
        → Ensures f Any m
        → ((v : Value) → Ensures f Any (g v))
        → Ensures f Any (m >>= λ v. g v >> pure v)
    then_after m g h i =
        Ensures-bind f Any Any m _ h
          (λ v _. Ensures-bind f Any Any (g v) _ (i v) (λ _ _. Ensures-pure f Any v tt))

    pub f-sync_block : (w : W) → f (sync_block w).1 ≡ f w
    f-sync_block =
        Ensures-with_stack f Any _ _ Entered-before
          (then_after _ (after names telemetry hooks step value) Ensures-migrate Ensures-after)

    pub f-async_block : (w : W) → f (async_block w).1 ≡ f w
    f-async_block = Ensures-with_stack f Any _ _ Entered-before_async (
        then_after _ (after_async names telemetry hooks step value) Ensures-migrate_async
          Ensures-after_async)
