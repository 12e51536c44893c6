-- ===== src/Telemetry.antt =====
-- runtime/telemetry/__init__.py: the events of a run and the publisher that fans them out, and
-- `StepContext` of runtime/context.py. Times are left out of the events.
pub mod Fanout
use pyverge.Prelude.{ℕ, Bool, true, false, not, ◌&&◌, List, [], ◌∷◌, if◌then◌else◌}
use pyverge.Prelude.Text.{Text}
use pyverge.Prelude.Effects.{
  Error, exception, base_exception, Result, ok, raised, Action, pure, ◌>>=◌, ◌>>◌,
}
use pyverge.Identity.{NodeId, EdgeId}
use pyverge.Planning.{Step}

pub record StepContext (V : Type 0) : Type 0 where
  pub run_id : Text
  pub path : List Step
  pub index : ℕ
  pub source : NodeId V
  pub target : NodeId V
  pub edge : EdgeId V
  pub name : Text

pub data TelemetryEvent (V : Type 0) : Type 0 where
  run_started run_completed : Text → TelemetryEvent V
  run_failed : Text → Error → TelemetryEvent V
  step_started step_completed : StepContext V → TelemetryEvent V
  step_failed : StepContext V → Error → TelemetryEvent V

-- `isinstance(event, (RunFailed, StepFailed))`
abbrev pub is_failure : {V : Type 0} → TelemetryEvent V → Bool
is_failure (run_failed r e) = true
is_failure (step_failed s e) = true
is_failure event = false

pub data TelemetryMode : Type 0 where
  all errors sampled off : TelemetryMode

-- `has_rate` is `sample_rate > 0.0`; `is_sampled` compares the hash of the run with the rate;
-- `log` is the logger's `exception`.
pub record TelemetryPublisher (W V : Type 0) : Type 0 where
  pub adapters : List (TelemetryEvent V → Action W Unit)
  pub mode : TelemetryMode
  pub has_rate : Bool
  pub is_sampled : TelemetryEvent V → Bool
  pub log : Action W Unit

abbrev pub has_adapter : {A : Type 0} → List A → Bool
has_adapter [] = false
has_adapter (a ∷ as') = true

abbrev pub is_off : TelemetryMode → Bool
is_off off = true
is_off m = false

abbrev pub success_in : TelemetryMode → Bool → Bool → Bool
success_in all has_rate on = on
success_in sampled has_rate on = on && has_rate
success_in errors has_rate on = false
success_in off has_rate on = false

-- What the mode lets through.
abbrev pub lets : {V : Type 0} → TelemetryMode → (TelemetryEvent V → Bool) → TelemetryEvent V → Bool
lets all is_sampled event = true
lets errors is_sampled event = is_failure event
lets sampled is_sampled event = is_sampled event
lets off is_sampled event = true

-- `try: adapter.emit(event) except Exception: _LOGGER.exception(...)`
abbrev pub swallow :
    {W : Type 0} → Action W (Unit {0}) → Result (Unit {0}) × W → Result (Unit {0}) × W
swallow log (ok u, w) = (ok u, w)
swallow log (raised (exception cls t), w) = log w
swallow log (raised (base_exception t), w) = (raised (base_exception t), w)

module _ {W V : Type 0} where
  unfoldable pub enabled : TelemetryPublisher W V → Bool
  enabled p = has_adapter p.adapters && not (is_off p.mode)

  unfoldable pub emits_success : TelemetryPublisher W V → Bool
  unfolding enabled
  emits_success p = success_in p.mode p.has_rate (enabled p)

  unfoldable pub emits_failure : TelemetryPublisher W V → Bool
  unfolding enabled
  emits_failure p = enabled p

  unfoldable pub fan_out :
      Action W Unit → List (TelemetryEvent V → Action W Unit) → TelemetryEvent V → Action W Unit
  fan_out log [] event = pure tt
  fan_out log (adapter ∷ adapters) event =
      (λ w. swallow log (adapter event w)) >> fan_out log adapters event

  -- `emit` of a publisher with this mode and these adapters.
  abbrev pub published :
      TelemetryMode
      → (TelemetryEvent V → Bool)
      → Action W Unit
      → List (TelemetryEvent V → Action W Unit)
      → TelemetryEvent V
      → Action W Unit
  published mode is_sampled log adapters event =
      if not (has_adapter adapters && not (is_off mode))
      then pure tt
      else if not (lets mode is_sampled event)
      then pure tt
      else fan_out log adapters event

  unfoldable pub emit : TelemetryPublisher W V → TelemetryEvent V → Action W Unit
  emit p event = published p.mode p.is_sampled p.log p.adapters event

  -- `if telemetry.emits_success: telemetry.emit(event)`
  unfoldable pub emit_success : TelemetryPublisher W V → TelemetryEvent V → Action W Unit
  unfolding emits_success emit
  emit_success p event = if emits_success p then emit p event else pure tt

  -- `if telemetry.emits_failure: telemetry.emit(event)`
  unfoldable pub emit_failure : TelemetryPublisher W V → TelemetryEvent V → Action W Unit
  unfolding emits_failure emit
  emit_failure p event = if emits_failure p then emit p event else pure tt
