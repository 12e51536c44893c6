-- ===== src/Execution/Announced.antt =====
-- What a run reports.
use mathlib.Core.List.{append-nil, append_assoc}
use pyverge.Prelude.{◌≡◌, refl, sym, ◌∙◌, ap, List, [], ◌++◌, All}
use pyverge.Prelude.Text.{Text}
use pyverge.Prelude.Effects.{Result, ok, raised, Action, pure, ◌>>◌, continue}
use pyverge.Payload.{Value}
use pyverge.Telemetry.{
  TelemetryPublisher, TelemetryEvent, run_started, run_completed, run_failed, emit_success,
  emit_failure,
}
use pyverge.Telemetry.Fanout.{Records, reported, Adds-emit_success, Adds-emit_failure}
use pyverge.Middleware.{Call, Answer, value, awaitable, Backend}
use pyverge.Execution.Scopes.{observed}
use pyverge.Execution.Runner.{CopyPolicy, copied, layered, answered, await_result, execute_as}

module _ {W V P A : Type 0} (kept : W → List (TelemetryEvent V)) (p : TelemetryPublisher W V)
    (h : All (Records kept p.log) p.adapters) (new_id : Action W Text)
    (middleware : List (Backend W P A → Backend W P A)) (backend : Backend W P A)
    (copy : CopyPolicy) (make_call : Text → Value → Call P) (run_id : Text) where
  abbrev after : TelemetryEvent V → List (TelemetryEvent V)
  after e = reported kept p h e

  -- What is reported of a run that ended with this result; an awaitable has not ended.
  abbrev pub run_ending : Result (Answer W A) → List (TelemetryEvent V)
  run_ending (ok (value a)) = after (run_completed run_id)
  run_ending (ok (awaitable m)) = []
  run_ending (raised e) = after (run_failed run_id e)

  abbrev pub awaited_ending : Result A → List (TelemetryEvent V)
  awaited_ending (ok a) = after (run_completed run_id)
  awaited_ending (raised e) = after (run_failed run_id e)

  abbrev closed : Result (Answer W A) × W → Result (Answer W A) × W
  closed x =
      let y = observed (λ e. emit_failure p (run_failed run_id e)) x in
      continue y.0 (answered p new_id middleware backend copy make_call run_id) y.1

  closed_lem :
      (x : Result (Answer W A) × W) → kept (closed x).1 ≡ kept x.1 ++ run_ending (closed x).0
  unfolding answered
  closed_lem (ok (value a), u) =
      let (done, here) = Adds-emit_success kept p h (run_completed run_id) u refl in rw done here
  closed_lem (ok (awaitable m), u) = sym (append-nil (kept u))
  closed_lem (raised e, u) =
      let (done, here) = Adds-emit_failure kept p h (run_failed run_id e) u refl in rw done here

  -- The call that reaches the backend in its middleware, and the world that it finds: the start of
  -- the run has been reported.
  abbrev pub inner_run : Value → W → Result (Answer W A) × W
  inner_run payload w =
      (layered p new_id middleware backend copy make_call middleware).execute
        (make_call run_id (copied copy payload)) (emit_success p (run_started run_id) w).1

  -- A run reports that it started, then what the backend in its middleware reports, as long as that
  -- only adds to the record, and then, last of all, that it completed if it returns a value or that
  -- it failed with the error that it raises, as far as the publisher's mode reports it, and nothing
  -- more of an awaitable.
  pub kept-execute_as :
      (payload : Value) (w : W) (during : List (TelemetryEvent V))
      → kept (inner_run payload w).1 ≡ kept (emit_success p (run_started run_id) w).1 ++ during
      → let out = execute_as p new_id middleware backend copy make_call payload run_id w in
        kept out.1 ≡ kept w ++ (after (run_started run_id) ++ (during ++ run_ending out.0))
  unfolding execute_as
  kept-execute_as payload w during k =
      let (began, here) = Adds-emit_success kept p h (run_started run_id) w refl in
      let x = inner_run payload w in
      let begun = kept w ++ after (run_started run_id) in
      let added : kept x.1 ≡ begun ++ during = k ∙ ap (λ l. l ++ during) here in
      rw began (
        closed_lem x
        ∙ ap (λ l. l ++ run_ending (closed x).0) added
        ∙ append_assoc begun during (run_ending (closed x).0)
        ∙ append_assoc (kept w) (after (run_started run_id)) (during ++ run_ending (closed x).0))

  abbrev settled : Result A × W → Result A × W
  settled x =
      let y = observed (λ e. emit_failure p (run_failed run_id e)) x in
      continue y.0 (λ a. emit_success p (run_completed run_id) >> pure a) y.1

  -- Awaiting what a run left open reports, last of all, that it completed if a value comes of it,
  -- and that it failed with the error that it raises otherwise, whatever the awaited part reports.
  pub kept-await_result :
      (m : Action W A) (w : W)
      → kept (await_result p new_id middleware backend copy make_call run_id m w).1
        ≡ kept (m w).1
          ++ awaited_ending (await_result p new_id middleware backend copy make_call run_id m w).0
  unfolding await_result
  kept-await_result m w = go (m w)
    where
      go : (x : Result A × W) → kept (settled x).1 ≡ kept x.1 ++ awaited_ending (settled x).0
      go (ok a, u) =
          let (done, here) = Adds-emit_success kept p h (run_completed run_id) u refl in
          rw done here
      go (raised e, u) =
          let (done, here) = Adds-emit_failure kept p h (run_failed run_id e) u refl in rw done here
