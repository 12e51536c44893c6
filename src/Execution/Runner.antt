-- ===== src/Execution/Runner.antt =====
-- runtime/runner.py: `Runner` wraps its backend in its middleware, runs a plan and reports the run.
use pyverge.Prelude.{Option, none, some, List, [], ◌∷◌}
use pyverge.Prelude.Text.{Text, codes}
use pyverge.Prelude.Effects.{Error, exception, target_validation, Action, pure, raise, ◌>>=◌, ◌>>◌}
use pyverge.Planning.{Step}
use pyverge.Payload.{Value, null, boolean, integer, text, list, dict}
use pyverge.Payload
use pyverge.Telemetry.{
  TelemetryPublisher, run_started, run_completed, run_failed, emit_success, emit_failure,
}
use pyverge.Middleware.{Call, Answer, value, awaitable, Backend}
use pyverge.Execution.Scopes.{on_any, try}
use pyverge.Execution.Backends.{lifted}

-- `CopyPolicy`: a copy is an equal value.
pub data CopyPolicy : Type 0 where
  deep shallow no_copy : CopyPolicy

unfoldable pub copied : CopyPolicy → Value → Value
copied deep payload = payload
copied shallow payload = payload
copied no_copy payload = payload

-- The job of a run is made of its identity and its copied payload.
module _ {W V P A : Type 0} (telemetry : TelemetryPublisher W V) (new_id : Action W Text)
    (middleware : List (Backend W P A → Backend W P A)) (backend : Backend W P A)
    (copy : CopyPolicy) (make_call : Text → Value → Call P) where
  -- `for layer in reversed(self.middleware): backend = layer.wrap(backend)`
  unfoldable pub layered : List (Backend W P A → Backend W P A) → Backend W P A
  layered [] = backend
  layered (wrap ∷ layers) = wrap (layered layers)

  -- `run_id or self.environment.id_factory.new("run_")`
  abbrev active_id : Option Text → Action W Text
  active_id none = new_id
  active_id (some []) = new_id
  active_id (some (c ∷ cs)) = pure (c ∷ cs)

  -- `_await_result`
  unfoldable pub await_result : Text → Action W A → Action W A
  await_result run_id result = do
    answer ← on_any result (λ error. emit_failure telemetry (run_failed run_id error))
    emit_success telemetry (run_completed run_id)
    pure answer

  unfoldable pub answered : Text → Answer W A → Action W (Answer W A)
  unfolding await_result
  answered run_id (awaitable result) = pure (awaitable (await_result run_id result))
  answered run_id (value answer) = do
    emit_success telemetry (run_completed run_id)
    pure (value answer)

  -- `execute` once the run has its identity.
  unfoldable pub execute_as : Value → Text → Action W (Answer W A)
  unfolding layered answered copied
  execute_as payload run_id = do
    emit_success telemetry (run_started run_id)
    result ←
        on_any ((layered middleware).execute (make_call run_id (copied copy payload)))
          (λ error. emit_failure telemetry (run_failed run_id error))
    answered run_id result

  unfoldable pub execute : Value → Option Text → Action W (Answer W A)
  unfolding execute_as
  execute payload run_id = do active ← active_id run_id; execute_as payload active

-- `TargetValidationError`, with the text of its cause.
abbrev pub invalid : Text → Error
invalid cause = exception target_validation cause

-- `M` is the model that the adapter resolves an entry's target to, `X` an entry of the plan.
module _ {W X M : Type 0} (path_of : X → List Step) (str : Error → Text) (resolve : X → Action W M)
    (finalize : M → Value → Action W Value) where
  -- `try: path.set(data, self.adapter.finalize(resolved, value))`
  abbrev placed : List Step → Value → Value → M → Action W Value
  placed path data' current model =
      try (finalize model current >>= λ final. lifted (Payload.set path data' final))
        (λ error. raise (invalid (str error)))

  abbrev checked : X → Value → Value → Action W Value
  checked entry data' (dict fs) = resolve entry >>= placed (path_of entry) data' (dict fs)
  checked entry data' v = raise (invalid (codes "target payload is not a mapping"))

  -- `_validate_target`, which leaves the finalized values in the data.
  unfoldable pub validate_target : List X → Value → Action W Value
  unfolding lifted Payload.get Payload.set
  validate_target [] data' = pure data'
  validate_target (entry ∷ entries) data' = do
    current ← lifted (Payload.get (path_of entry) data')
    updated ← checked entry data' current
    validate_target entries updated
