-- ===== src/Execution/Modes.antt =====
-- `run_async` on a step that awaits nothing does what `run_sync` does.
use pyverge.Prelude.{◌≡◌, refl, sym, ap, List, [], ◌∷◌, All}
use mathlib.Core.Path.{fun_ext}
use pyverge.Prelude.Effects.{Error, Result, ok, raised, Action, pure, raise, continue, ◌>>=◌, ◌>>◌}
use pyverge.Payload.{Value}
use pyverge.Telemetry.{StepContext, TelemetryPublisher}
use pyverge.Execution.Scopes.{Scope, with_stack, try}
use pyverge.Execution.Steps.{
  Returned, now, later, Given, nothing, scope, async_scope, Hook, Naming, raise_on_awaitable,
  resolve, invoke_hook, each, enter_all, enter_all_async, before, before_async, after, after_async,
  on_error, on_error_async, migrate, migrate_async, on_results, Stacked, coroutine, async_hook,
  classified, before_results, reported_run, run_sync, run_async, entered,
}
use pyverge.Execution.Kept.{Yields}
use pyverge.Execution.Blocks.{Ensures, Ensures-bind, Ensures-invoke_hook}

-- It is no awaitable.
abbrev pub IsNow : {W A : Type 0} → Returned W A → Type 0
IsNow (now a) = Unit
IsNow (later m) = ⊥

-- It is no awaitable and no asynchronous scope.
abbrev pub IsPlainGiven : {W : Type 0} → Returned W (Given W) → Type 0
IsPlainGiven (now (async_scope s)) = ⊥
IsPlainGiven (now nothing) = Unit
IsPlainGiven (now (scope s)) = Unit
IsPlainGiven (later m) = ⊥

abbrev pub blind : {W : Type 0} → W → Unit {0}
blind w = tt

-- Whenever the action returns, what it returns has the property.
abbrev pub Gives : {W A : Type 0} → (A → Type 0) → Action W A → Type 0
Gives {W} P m = Ensures (blind {W = W}) P m

-- A hook that never awaits.
pub record IsPlainHook {W V : Type 0} (h : Hook W V) : Type 0 where
  pub plain_before : (s : StepContext V) (v : Value) → Gives IsPlainGiven (h.before_migrate s v)
  pub plain_after : (s : StepContext V) (v m : Value) → Gives IsNow (h.after_migrate s v m)
  pub plain_on_error : (s : StepContext V) (v : Value) (e : Error) → Gives IsNow (h.on_error s v e)

module _ {W : Type 0} where
  bind_cong :
      {A B : Type 0} (P : A → Type 0) (m : Action W A) (k l : A → Action W B)
      → Gives P m
      → ((a : A) → P a → k a ≡ l a)
      → (m >>= k) ≡ (m >>= l)
  bind_cong {A} {B} P m k l h g = fun_ext λ w. go (m w) (h w).1
    where
      go :
          (x : Result A × W)
          → Yields (blind {W = W}) P x.0
          → continue x.0 k x.1 ≡ continue x.0 l x.1
      go (ok a, u) y = ap (λ (t : Action W B). t u) (g a y)
      go (raised e, u) y = refl

  resolve-raise_on_awaitable :
      {A : Type 0} (e : Error) (r : Returned W A) → IsNow r → raise_on_awaitable e r ≡ resolve r
  unfolding raise_on_awaitable resolve
  resolve-raise_on_awaitable e (now a) h = refl
  resolve-raise_on_awaitable e (later m) h = absurd h

  each_cong :
      {A : Type 0} (P : A → Type 0) (check check' : A → Action W Unit) (l : List A)
      → ((a : A) → P a → check a ≡ check' a)
      → All P l
      → each check l ≡ each check' l
  unfolding each
  each_cong P check check' [] h p = refl
  each_cong P check check' (a ∷ l) h p = rw (h a p.0, each_cong P check check' l h p.1) refl

  enter_all_async_lem :
      (l : List (Returned W (Given W))) (stack : List (Scope W)) (w : W)
      → All IsPlainGiven l
      → enter_all l stack w ≡ enter_all_async l stack w
  unfolding enter_all enter_all_async resolve
  enter_all_async_lem [] stack w h = refl
  enter_all_async_lem (later m ∷ l) stack w h = absurd h.0
  enter_all_async_lem (now (async_scope s) ∷ l) stack w h = absurd h.0
  enter_all_async_lem (now nothing ∷ l) stack w h = enter_all_async_lem l stack w h.1
  enter_all_async_lem (now (scope s) ∷ l) stack w h =
      ap (λ (rest : Stacked W). entered s stack rest (s.enter w))
        (fun_ext λ t. fun_ext λ u. enter_all_async_lem l t u h.1)

module _ {W V : Type 0} (names : Naming) (telemetry : TelemetryPublisher W V)
    (hooks : Action W (List (Hook W V))) (step : StepContext V) (value : Value)
    (invoke : Action W (Returned W Value)) (plain_hooks : Gives (All IsPlainHook) hooks)
    (plain_invoke : Gives IsNow invoke) where
  phase_cong :
      {A B : Type 0} (P : A → Type 0) (phase : Hook W V → Action W A) (k l : List A → Action W B)
      → ((h : Hook W V) → IsPlainHook h → Gives P (phase h))
      → ((r : List A) → All P r → k r ≡ l r)
      → (hooks >>= λ found. invoke_hook phase found >>= k)
        ≡ (hooks >>= λ found. invoke_hook phase found >>= l)
  phase_cong P phase k l g c = bind_cong (All IsPlainHook) hooks _ _ plain_hooks (λ found p.
      bind_cong (All P) (invoke_hook phase found) k l
        (Ensures-invoke_hook blind IsPlainHook P phase found g p) c)

  checks_cong :
      (e : Error) (r : List (Returned W Unit))
      → All IsNow r
      → each (raise_on_awaitable e) r ≡ each resolve r
  checks_cong e r = each_cong IsNow _ _ r (resolve-raise_on_awaitable e)

  after_cong :
      (m : Value)
      → after names telemetry hooks step value m ≡ after_async names telemetry hooks step value m
  unfolding after after_async
  after_cong m = phase_cong IsNow _ _ _ (λ h i. i.plain_after step value m) (checks_cong async_hook)

  on_error_cong :
      (e : Error)
      → on_error names telemetry hooks step value e
        ≡ on_error_async names telemetry hooks step value e
  unfolding on_error on_error_async
  on_error_cong e =
      phase_cong IsNow _ _ _ (λ h i. i.plain_on_error step value e) (checks_cong async_hook)

  migrate_cong :
      migrate names telemetry hooks step value invoke
      ≡ migrate_async names telemetry hooks step value invoke
  unfolding migrate migrate_async
  migrate_cong =
      let same : (invoke >>= raise_on_awaitable coroutine) ≡ (invoke >>= resolve) =
        bind_cong IsNow invoke _ _ plain_invoke (resolve-raise_on_awaitable coroutine) in
      λ i. try (same i) (λ error. on_error_cong error i >> raise (classified names error))

  before_cong :
      before names telemetry hooks step value ≡ before_async names telemetry hooks step value
  unfolding before before_async
  before_cong = fun_ext λ w. go (before_results names telemetry hooks step value w) (given w)
    where
      given :
          (w : W)
          → Yields
              (blind {W = W})
              (All IsPlainGiven)
              (before_results names telemetry hooks step value w).0
      given w =
          (Ensures-bind blind (All IsPlainHook) (All IsPlainGiven) hooks _ plain_hooks
            (λ found p.
              Ensures-invoke_hook blind IsPlainHook IsPlainGiven (λ h. h.before_migrate step value)
                found (λ h i. i.plain_before step value) p)
            w).1

      go :
          (x : Result (List (Returned W (Given W))) × W)
          → Yields (blind {W = W}) (All IsPlainGiven) x.0
          → on_results enter_all x ≡ on_results enter_all_async x
      go (ok l, u) y = enter_all_async_lem l [] u y
      go (raised e, u) y = refl

  -- On a step whose hooks and migration return no awaitable and no asynchronous scope, `run_async`
  -- does exactly what `run_sync` does: the same result, the same error, the same world.
  pub run_async-run_sync :
      run_async names telemetry hooks step value invoke
      ≡ run_sync names telemetry hooks step value invoke
  unfolding run_sync run_async
  run_async-run_sync = sym (λ i. reported_run names telemetry hooks step value invoke (
      with_stack (before_cong i)
        do migrated ← migrate_cong i; after_cong migrated i; pure migrated))

  -- So does `run_async` on a coroutine that awaits what the migration returns.
  pub run_async-later :
      run_async names telemetry hooks step value (pure (later (invoke >>= resolve)))
      ≡ run_sync names telemetry hooks step value invoke
  unfolding run_async migrate_async resolve
  run_async-later = run_async-run_sync
