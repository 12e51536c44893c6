-- ===== src/Telemetry/Fanout.antt =====
-- What the publisher does to the run that it reports on.
use mathlib.Core.List.{append-nil, append_assoc}
use pyverge.Prelude.{
  ◌≡◌, refl, sym, ap, ◌∙◌, Bool, true, false, not, ◌&&◌, List, [], ◌∷◌, ◌++◌, if◌then◌else◌, All,
  if-both, inl, inr, Bool-cases,
}
use pyverge.Prelude.Effects.{ok, Action, pure}
use pyverge.Telemetry.{
  TelemetryEvent, TelemetryPublisher, TelemetryMode, all, errors, sampled, off, is_failure,
  emit_success, emit_failure, fan_out, swallow, success_in, is_off, has_adapter, published,
}

-- An adapter that appends the event to a record and returns or raises an exception, which the
-- logger takes; `kept` reads the record.
pub record Records {W V : Type 0} (kept : W → List (TelemetryEvent V)) (log : Action W Unit)
    (adapter : TelemetryEvent V → Action W Unit) : Type 0 where
  pub emits :
      (e : TelemetryEvent V) (w : W)
      → ((swallow log (adapter e w)).0 ≡ ok tt)
        × (kept (swallow log (adapter e w)).1 ≡ kept w ++ e ∷ [])

module _ {W V : Type 0} (kept : W → List (TelemetryEvent V)) where
  -- One event for each adapter.
  abbrev pub copies : {A : Type 0} → List A → TelemetryEvent V → List (TelemetryEvent V)
  copies [] e = []
  copies (a ∷ as') e = e ∷ copies as' e

  pub fan_out_lem :
      (log : Action W Unit) (adapters : List (TelemetryEvent V → Action W Unit))
      → All (Records kept log) adapters
      → (e : TelemetryEvent V) (w : W)
      → ((fan_out log adapters e w).0 ≡ ok tt)
        × (kept (fan_out log adapters e w).1 ≡ kept w ++ copies adapters e)
  unfolding fan_out
  fan_out_lem log [] h e w = (refl, sym (append-nil (kept w)))
  fan_out_lem log (a ∷ as') h e w =
      let (done, here) = h.0.emits e w in
      let (rest, there) = fan_out_lem log as' h.1 e (swallow log (a e w)).1 in
      rw done (rest, there ∙ ap (λ l. l ++ copies as' e) here ∙ append_assoc (kept w) (e ∷ []) _)

-- What the adapters get of an event, of which `l` holds a copy for each: a failure in every mode
-- but `off`, another event in mode `all`, and in mode `sampled` what is sampled.
abbrev pub reported_in :
    {V : Type 0}
    → TelemetryMode
    → (has_rate is_sampled failure : Bool) → List (TelemetryEvent V)
    → List (TelemetryEvent V)
reported_in all r s f l = l
reported_in errors r s f l = if f then l else []
reported_in sampled r s f l = if s then (if f then l else if r then l else []) else []
reported_in off r s f l = []

module _ {W V : Type 0} (kept : W → List (TelemetryEvent V)) (p : TelemetryPublisher W V)
    (h : All (Records kept p.log) p.adapters) where
  abbrev pub reported : TelemetryEvent V → List (TelemetryEvent V)
  reported e =
      reported_in p.mode p.has_rate (p.is_sampled e) (is_failure e) (copies kept p.adapters e)

  -- Returns, with the events `l` added to the record.
  abbrev pub Adds : Action W Unit → W → List (TelemetryEvent V) → Type 0
  Adds m w l = ((m w).0 ≡ ok tt) × (kept (m w).1 ≡ kept w ++ l)

  fanned :
      (e : TelemetryEvent V) (w : W)
      → Adds (fan_out p.log p.adapters e) w (copies kept p.adapters e)
  fanned e w = fan_out_lem kept p.log p.adapters h e w

  silent : (w : W) → Adds (pure tt) w []
  silent w = (refl, sym (append-nil (kept w)))

  -- A successful event, as the mode and the adapters decide.
  success_by_mode :
      (m : TelemetryMode) (r : Bool) (is_sampled : TelemetryEvent V → Bool)
      (l : List (TelemetryEvent V → Action W Unit)) (e : TelemetryEvent V) (w : W)
      → is_failure e ≡ false
      → Adds (fan_out p.log l e) w (copies kept l e)
      → Adds
          (if success_in m r (has_adapter l && not (is_off m))
            then published m is_sampled p.log l e
            else pure tt)
          w
          (reported_in m r (is_sampled e) (is_failure e) (copies kept l e))
  success_by_mode all r sampled_in [] e w g h = silent w
  success_by_mode all r sampled_in (a ∷ l) e w g h = h
  success_by_mode errors r sampled_in [] e w g h = rw g (silent w)
  success_by_mode errors r sampled_in (a ∷ l) e w g h = rw g (silent w)
  success_by_mode off r sampled_in [] e w g h = silent w
  success_by_mode off r sampled_in (a ∷ l) e w g h = silent w
  success_by_mode sampled r sampled_in [] e w g h = rw g (
      if-both (Adds (pure tt) w) (sampled_in e) _ _
        (if-both (Adds (pure tt) w) r _ _ (silent w) (silent w)) (silent w))
  success_by_mode sampled false sampled_in (a ∷ l) e w g h =
      rw g (if-both (Adds (pure tt) w) (sampled_in e) _ _ (silent w) (silent w))
  success_by_mode sampled true sampled_in (a ∷ l) e w g h = elim (Bool-cases (sampled_in e)) [
    | inl y ↦ rw (g, y) h
    | inr n ↦ rw n (silent w)
  ]

  -- The same of a failure.
  failure_by_mode :
      (m : TelemetryMode) (r : Bool) (is_sampled : TelemetryEvent V → Bool)
      (l : List (TelemetryEvent V → Action W Unit)) (e : TelemetryEvent V) (w : W)
      → is_failure e ≡ true
      → Adds (fan_out p.log l e) w (copies kept l e)
      → Adds
          (if has_adapter l && not (is_off m) then published m is_sampled p.log l e else pure tt)
          w
          (reported_in m r (is_sampled e) (is_failure e) (copies kept l e))
  failure_by_mode all r sampled_in [] e w g h = silent w
  failure_by_mode all r sampled_in (a ∷ l) e w g h = h
  failure_by_mode errors r sampled_in [] e w g h = rw g (silent w)
  failure_by_mode errors r sampled_in (a ∷ l) e w g h = rw g h
  failure_by_mode off r sampled_in [] e w g h = silent w
  failure_by_mode off r sampled_in (a ∷ l) e w g h = silent w
  failure_by_mode sampled r sampled_in [] e w g h =
      rw g (if-both (Adds (pure tt) w) (sampled_in e) _ _ (silent w) (silent w))
  failure_by_mode sampled r sampled_in (a ∷ l) e w g h = elim (Bool-cases (sampled_in e)) [
    | inl y ↦ rw (g, y) h
    | inr n ↦ rw n (silent w)
  ]

  pub Adds-emit_success :
      (e : TelemetryEvent V) (w : W) → is_failure e ≡ false → Adds (emit_success p e) w (reported e)
  unfolding emit_success
  Adds-emit_success e w g =
      success_by_mode p.mode p.has_rate p.is_sampled p.adapters e w g (fanned e w)

  pub Adds-emit_failure :
      (e : TelemetryEvent V) (w : W) → is_failure e ≡ true → Adds (emit_failure p e) w (reported e)
  unfolding emit_failure
  Adds-emit_failure e w g =
      failure_by_mode p.mode p.has_rate p.is_sampled p.adapters e w g (fanned e w)
