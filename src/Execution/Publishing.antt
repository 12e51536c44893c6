-- ===== src/Execution/Publishing.antt =====
-- A step around its block: what its reports leave as it was.
use pyverge.Prelude.{◌≡◌, refl, ◌∙◌, Bool, not, ◌&&◌, List, [], ◌∷◌, All, if◌then◌else◌, if-both}
use pyverge.Prelude.Effects.{
  Error, exception, base_exception, Result, ok, raised, Action, pure, continue, ◌>>=◌, ◌>>◌,
}
use pyverge.Payload.{Value}
use pyverge.Telemetry.{
  StepContext, TelemetryPublisher, TelemetryEvent, step_started, step_completed, step_failed,
  emit_success, emit_failure, fan_out, swallow, emit, emits_success, emits_failure, lets,
  has_adapter, is_off,
}
use pyverge.Execution.Scopes.{on_any, observed}
use pyverge.Execution.Steps.{Returned, Hook, Naming, reported_run}
use pyverge.Execution.Kept.{Keeps}

module _ {W K : Type 0} (f : W → K) where
  Keeps-swallow :
      (log m : Action W Unit) → Keeps f log → Keeps f m → Keeps f (λ w. swallow log (m w))
  Keeps-swallow log m h g w = go (m w) (g w)
    where
      go : (x : Result (Unit {0}) × W) → f x.1 ≡ f w → f (swallow log x).1 ≡ f w
      go (ok u, v) e = e
      go (raised (exception cls t), v) e = h v ∙ e
      go (raised (base_exception t), v) e = e

  pub Keeps-bind :
      {A B : Type 0} (m : Action W A) (k : A → Action W B)
      → Keeps f m
      → ((a : A) → Keeps f (k a))
      → Keeps f (m >>= k)
  Keeps-bind {A} m k h g w = go (m w) (h w)
    where
      go : (x : Result A × W) → f x.1 ≡ f w → f (continue x.0 k x.1).1 ≡ f w
      go (ok a, v) e = g a v ∙ e
      go (raised x, v) e = e

  pub Keeps-on_any :
      {A : Type 0} (m : Action W A) (handler : Error → Action W Unit)
      → Keeps f m
      → ((e : Error) → Keeps f (handler e))
      → Keeps f (on_any m handler)
  Keeps-on_any {A} m handler h g w = go (m w) (h w)
    where
      go : (x : Result A × W) → f x.1 ≡ f w → f (observed handler x).1 ≡ f w
      go (ok a, v) e = e
      go (raised x, v) e = g x v ∙ e

  pub Keeps-if :
      {A : Type 0} (b : Bool) (m k : Action W A)
      → Keeps f m
      → Keeps f k
      → Keeps f (if b then m else k)
  Keeps-if b m k h g = if-both (Keeps f) b m k h g

  -- A publisher whose adapters and logger keep the quantity.
  pub record IsKeptPublisher {V : Type 0} (p : TelemetryPublisher W V) : Type 0 where
    pub keeps_log : Keeps f p.log
    pub keeps_adapters : All (λ a. (e : TelemetryEvent V) → Keeps f (a e)) p.adapters

  module _ {V : Type 0} where
    Keeps-fan_out :
        (log : Action W Unit) (adapters : List (TelemetryEvent V → Action W Unit))
        → Keeps f log
        → All (λ a. (e : TelemetryEvent V) → Keeps f (a e)) adapters
        → (e : TelemetryEvent V) → Keeps f (fan_out log adapters e)
    unfolding fan_out
    Keeps-fan_out log [] h g e = λ w. refl
    Keeps-fan_out log (a ∷ as') h g e =
        Keeps-bind (λ w. swallow log (a e w)) (λ _. fan_out log as' e)
          (Keeps-swallow log (a e) h (g.0 e)) (λ _. Keeps-fan_out log as' h g.1 e)

    module _ (p : TelemetryPublisher W V) (h : IsKeptPublisher p) where
      Keeps-emit : (e : TelemetryEvent V) → Keeps f (emit p e)
      unfolding emit
      Keeps-emit e =
          let all_of = fan_out p.log p.adapters e in
          let let_through = lets p.mode p.is_sampled e in
          Keeps-if (not (has_adapter p.adapters && not (is_off p.mode))) (pure tt)
            (if not let_through then pure tt else all_of) (λ w. refl)
            (Keeps-if (not let_through) (pure tt) all_of (λ w. refl)
              (Keeps-fan_out p.log p.adapters h.keeps_log h.keeps_adapters e))

      Keeps-emit_success : (e : TelemetryEvent V) → Keeps f (emit_success p e)
      unfolding emit_success
      Keeps-emit_success e =
          Keeps-if (emits_success p) (emit p e) (pure tt) (Keeps-emit e) (λ w. refl)

      Keeps-emit_failure : (e : TelemetryEvent V) → Keeps f (emit_failure p e)
      unfolding emit_failure
      Keeps-emit_failure e =
          Keeps-if (emits_failure p) (emit p e) (pure tt) (Keeps-emit e) (λ w. refl)

      pub Keeps-reported_run :
          (names : Naming) (hooks : Action W (List (Hook W V))) (step : StepContext V)
          (value : Value) (invoke : Action W (Returned W Value)) (block : Action W Value)
          → Keeps f block
          → Keeps f (reported_run names p hooks step value invoke block)
      unfolding reported_run
      Keeps-reported_run names hooks step value invoke block k =
          let report = λ (e : Error). emit_failure p (step_failed step e) in
          let done = λ (v : Value). emit_success p (step_completed step) >> pure v in
          Keeps-bind (emit_success p (step_started step)) (λ _. on_any block report >>= done)
            (Keeps-emit_success (step_started step))
            (λ _.
              Keeps-bind (on_any block report) done
                (Keeps-on_any block report k (λ e. Keeps-emit_failure (step_failed step e)))
                (λ v.
                  Keeps-bind (emit_success p (step_completed step)) (λ _. pure v)
                    (Keeps-emit_success (step_completed step)) (λ _ w. refl)))
