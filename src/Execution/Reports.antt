-- ===== src/Execution/Reports.antt =====
-- `run_sync` and `run_async`: what a step leaves as it was, and what it reports.
use mathlib.Core.List.{append_assoc}
use pyverge.Prelude.{◌≡◌, refl, ◌∙◌, ap, List, ◌++◌, All}
use pyverge.Prelude.Effects.{Result, ok, raised, Action, pure, continue, ◌>>◌}
use pyverge.Payload.{Value}
use pyverge.Telemetry.{
  StepContext, TelemetryPublisher, TelemetryEvent, step_started, step_completed, step_failed,
  emit_success, emit_failure,
}
use pyverge.Telemetry.Fanout.{Records, reported, Adds-emit_success, Adds-emit_failure}
use pyverge.Execution.Scopes.{observed}
use pyverge.Execution.Steps.{Returned, Hook, Naming, reported_run, run_sync, run_async}
use pyverge.Execution.Kept.{KeepsReturned, Keeps}
use pyverge.Execution.Blocks.{Ensures, Any, IsKeptHook}
use pyverge.Execution.Lifecycle.{f-sync_block, f-async_block}
use pyverge.Execution.Publishing.{IsKeptPublisher, Keeps-reported_run}

-- A quantity that the migration, the hooks and the telemetry adapters keep, and that each scope's
-- exit restores to what it was before its entry, is after a step what it was before, however the
-- step ends and whichever of `run_sync` and `run_async` runs it: every scope that was entered is
-- left, the last one first, and no other.
pub run_sync-keeps :
    {W V K : Type 0} (f : W → K) (names : Naming) (telemetry : TelemetryPublisher W V)
    (hooks : Action W (List (Hook W V))) (step : StepContext V) (value : Value)
    (invoke : Action W (Returned W Value))
    → IsKeptPublisher f telemetry
    → Ensures f (All (IsKeptHook f)) hooks
    → Ensures f (KeepsReturned f Any) invoke
    → (w : W)
    → (f (run_sync names telemetry hooks step value invoke w).1 ≡ f w)
      × (f (run_async names telemetry hooks step value invoke w).1 ≡ f w)
unfolding run_sync run_async
run_sync-keeps f names telemetry hooks step value invoke p h g w = (
  Keeps-reported_run f telemetry p names hooks step value invoke _
      (f-sync_block f names telemetry hooks step value h invoke g) w,
  Keeps-reported_run f telemetry p names hooks step value invoke _
      (f-async_block f names telemetry hooks step value h invoke g) w,
)

-- What is reported of a step that ended with this result.
abbrev pub ending :
    {W V : Type 0} (kept : W → List (TelemetryEvent V)) (p : TelemetryPublisher W V)
    → All (Records kept p.log) p.adapters
    → StepContext V
    → Result Value
    → List (TelemetryEvent V)
ending kept p h step (ok v) = reported kept p h (step_completed step)
ending kept p h step (raised e) = reported kept p h (step_failed step e)

module _ {W V : Type 0} (kept : W → List (TelemetryEvent V)) (p : TelemetryPublisher W V)
    (h : All (Records kept p.log) p.adapters) (names : Naming) (hooks : Action W (List (Hook W V)))
    (step : StepContext V) (value : Value) (invoke : Action W (Returned W Value)) where
  abbrev settled : Result Value × W → Result Value × W
  settled x =
      let y = observed (λ e. emit_failure p (step_failed step e)) x in
      continue y.0 (λ v. emit_success p (step_completed step) >> pure v) y.1

  -- What is reported once the block has ended.
  settled_lem :
      (x : Result Value × W) → kept (settled x).1 ≡ kept x.1 ++ ending kept p h step (settled x).0
  settled_lem (ok v, u) =
      let (done, here) = Adds-emit_success kept p h (step_completed step) u refl in rw done here
  settled_lem (raised e, u) =
      let (done, here) = Adds-emit_failure kept p h (step_failed step e) u refl in rw done here

  reported_run_lem :
      (block : Action W Value)
      → Keeps kept block
      → (w : W)
      → kept (reported_run names p hooks step value invoke block w).1
        ≡ kept w
          ++ (reported kept p h (step_started step)
              ++ ending kept p h step (reported_run names p hooks step value invoke block w).0)
  unfolding reported_run
  reported_run_lem block k w =
      let (began, here) = Adds-emit_success kept p h (step_started step) w refl in
      let u = (emit_success p (step_started step) w).1 in
      rw began (
        settled_lem (block u)
        ∙ ap (λ l. l ++ ending kept p h step (settled (block u)).0) (k u ∙ here)
        ∙ append_assoc (kept w) (reported kept p h (step_started step)) _)

  -- A step reports that it started and then, last of all, that it completed if it returns or that
  -- it failed with the error that it raises, each as far as the publisher's mode reports it, if
  -- its hooks, its scopes and its migration do not report themselves; `run_async` does the same.
  pub kept-run_sync :
      Ensures kept (All (IsKeptHook kept)) hooks
      → Ensures kept (KeepsReturned kept Any) invoke
      → (w : W)
      → (kept (run_sync names p hooks step value invoke w).1
          ≡ kept w
            ++ (reported kept p h (step_started step)
                ++ ending kept p h step (run_sync names p hooks step value invoke w).0))
        × (kept (run_async names p hooks step value invoke w).1
            ≡ kept w
              ++ (reported kept p h (step_started step)
                  ++ ending kept p h step (run_async names p hooks step value invoke w).0))
  unfolding run_sync run_async
  kept-run_sync i g w = (
    reported_run_lem _ (f-sync_block kept names p hooks step value i invoke g) w,
    reported_run_lem _ (f-async_block kept names p hooks step value i invoke g) w,
  )
