-- ===== src/Middleware/Audit.antt =====
-- runtime/middleware/audit.py
use mathlib.Core.List.{append-nil, append_assoc}
use pyverge.Prelude.{ap, refl, ◌∙◌, ℕ, ◌-◌, ◌≡◌, Option, none, some, List, [], ◌∷◌, ◌++◌}
use pyverge.Prelude.Text.{Text, codes}
use pyverge.Prelude.Effects.{
  Error, exception, base_exception, Result, ok, raised, Action, pure, on_exception, on_raised,
  continue, continue-reraise_after, ◌>>=◌, ◌>>◌,
}
use pyverge.Middleware.{Call, Answer, value, awaitable, Backend, AuditEvent, AuditSink}

-- The clock reads `time.perf_counter()`, in ticks; `str` is Python's `str(error)`.
module _ {W P V : Type 0} (perf_counter : Action W ℕ) (str : Error → Text) (sink : AuditSink W)
    (inner : Backend W P V) where
  abbrev event : Text → Text → Option ℕ → ℕ → Option Text → AuditEvent
  event run_id status duration entries error = record {
    name = codes "run";
    run_id = run_id;
    status = status;
    duration = duration;
    entries = entries;
    backend = inner.class_name;
    error = error;
  }

  -- The event of a run that ended, with the time since it started.
  finished : Text → ℕ → ℕ → Text → Option Text → Action W Unit
  finished run_id entries started status error = do
    now ← perf_counter
    sink.record_event (event run_id status (some (now - started)) entries error)

  -- `_async_result`
  unfoldable pub async_result : Text → ℕ → ℕ → Action W V → Action W V
  unfolding finished
  async_result run_id entries started result = do
    v ←
        on_exception result
          (λ error. finished run_id entries started (codes "failed") (some (str error)))
    finished run_id entries started (codes "completed") none
    pure v

  answered : Call P → ℕ → Answer W V → Action W (Answer W V)
  unfolding async_result
  answered call started (awaitable result) =
      pure (awaitable (async_result call.run_id call.entries started result))
  answered call started (value v) = do
    finished call.run_id call.entries started (codes "completed") none
    pure (value v)

  execute : Call P → Action W (Answer W V)
  unfolding answered
  execute call = do
    started ← perf_counter
    sink.record_event (event call.run_id (codes "started") none call.entries none)
    result ←
        on_exception (inner.execute call)
          (λ error. finished call.run_id call.entries started (codes "failed") (some (str error)))
    answered call started result

  -- `AuditMiddleware.wrap`
  unfoldable pub wrap : Backend W P V
  unfolding execute
  wrap = record { class_name = codes "_Audit"; execute = execute }

-- A sink that keeps what it records, a clock that tells the time, and a backend that leaves the
-- record alone.
pub record IsKept {W P V : Type 0} (perf_counter : Action W ℕ) (sink : AuditSink W)
    (inner : Backend W P V) (kept : W → List AuditEvent) : Type 0 where
  pub time : W → ℕ
  pub clock_returns : (w : W) → (perf_counter w).0 ≡ ok (time w)
  pub kept-clock : (w : W) → kept (perf_counter w).1 ≡ kept w
  pub record_returns : (e : AuditEvent) (w : W) → (sink.record_event e w).0 ≡ ok tt
  pub kept-record : (e : AuditEvent) (w : W) → kept (sink.record_event e w).1 ≡ kept w ++ e ∷ []
  pub kept-inner : (c : Call P) (w : W) → kept (inner.execute c w).1 ≡ kept w

module _ {W P V : Type 0} (perf_counter : Action W ℕ) (str : Error → Text) (sink : AuditSink W)
    (inner : Backend W P V) (kept : W → List AuditEvent)
    (h : IsKept perf_counter sink inner kept) where
  -- The event of a run that ended in the world `u`.
  abbrev pub final_event : Text → ℕ → ℕ → W → Text → Option Text → AuditEvent
  final_event run_id entries started u status error =
      event perf_counter str sink inner run_id status (some (h.time u - started)) entries error

  -- The event that an outcome leaves at once: none while it is awaited, and none for an error that
  -- `except Exception` does not catch.
  abbrev pub ending : Text → ℕ → ℕ → W → Result (Answer W V) → List AuditEvent
  ending run_id entries started u (ok (value v)) =
      final_event run_id entries started u (codes "completed") none ∷ []
  ending run_id entries started u (ok (awaitable m)) = []
  ending run_id entries started u (raised (exception cls t)) =
      final_event run_id entries started u (codes "failed") (some (str (exception cls t))) ∷ []
  ending run_id entries started u (raised (base_exception t)) = []

  finished_lem :
      (run_id : Text) (entries started : ℕ) (status : Text) (error : Option Text) (u : W)
      → (finished perf_counter str sink inner run_id entries started status error u).0 ≡ ok tt
  unfolding finished
  finished_lem run_id entries started status error u = rw h.clock_returns (h.record_returns _ _)

  kept-finished :
      (run_id : Text) (entries started : ℕ) (status : Text) (error : Option Text) (u : W)
      → kept (finished perf_counter str sink inner run_id entries started status error u).1
        ≡ kept u ++ final_event run_id entries started u status error ∷ []
  unfolding finished
  kept-finished run_id entries started status error u =
      rw (h.clock_returns, h.kept-record, h.kept-clock)

  abbrev pub started_event : Call P → AuditEvent
  started_event c = event perf_counter str sink inner c.run_id (codes "started") none c.entries none

  -- The world in which the inner backend runs.
  abbrev pub announced : Call P → W → W
  announced c w = (sink.record_event (started_event c) (perf_counter w).1).1

  abbrev on_failure : Call P → ℕ → Error → Action W Unit
  on_failure c started error =
      finished perf_counter str sink inner c.run_id c.entries started (codes "failed")
        (some (str error))

  after_inner :
      (c : Call P) (started : ℕ) (l : List AuditEvent) (u : W) (r : Result (Answer W V))
      → kept u ≡ l
      → kept
          (continue
            (on_raised (on_failure c started) (r, u)).0
            (answered perf_counter str sink inner c started)
            (on_raised (on_failure c started) (r, u)).1).1
        ≡ l ++ ending c.run_id c.entries started u r
  unfolding answered
  after_inner c started l u (ok (value x)) e = rw finished_lem (rw (kept-finished, e))
  after_inner c started l u (ok (awaitable m)) e = rw (append-nil, e)
  after_inner c started l u (raised (exception cls t)) e =
      rw (continue-reraise_after, kept-finished, e)
  after_inner c started l u (raised (base_exception t)) e = rw (append-nil, e)

  -- The caller gets the inner backend's outcome; an awaitable is wrapped, to record its end.
  abbrev pub passed_on : Call P → ℕ → Result (Answer W V) → Result (Answer W V)
  passed_on c started (ok (value x)) = ok (value x)
  passed_on c started (ok (awaitable m)) =
      ok (awaitable (async_result perf_counter str sink inner c.run_id c.entries started m))
  passed_on c started (raised e) = raised e

  result_after :
      (c : Call P) (started : ℕ) (u : W) (r : Result (Answer W V))
      → (continue
          (on_raised (on_failure c started) (r, u)).0
          (answered perf_counter str sink inner c started)
          (on_raised (on_failure c started) (r, u)).1).0
        ≡ passed_on c started r
  unfolding answered
  result_after c started u (ok (value x)) = rw finished_lem refl
  result_after c started u (ok (awaitable m)) = refl
  result_after c started u (raised (exception cls t)) = rw finished_lem refl
  result_after c started u (raised (base_exception t)) = refl

  -- Each call records that it started, and then what the inner backend's outcome asks for:
  -- `completed` for a value, `failed` with the error's text for an exception, each with the time
  -- since the start, and nothing else. It returns the value of the inner backend, raises its error,
  -- and returns its awaitable so wrapped that the end is recorded when it is awaited.
  pub kept-execute :
      (c : Call P) (w : W)
      → let out = (wrap perf_counter str sink inner).execute c w in
        let (r, u) = inner.execute c (announced c w) in
        (kept out.1 ≡ kept w ++ started_event c ∷ ending c.run_id c.entries (h.time w) u r)
        × (out.0 ≡ passed_on c (h.time w) r)
  unfolding wrap
  kept-execute c w =
      let before : kept (announced c w) ≡ kept w ++ started_event c ∷ [] =
        h.kept-record _ _ ∙ ap (λ l. l ++ started_event c ∷ []) (h.kept-clock w) in
      rw (h.clock_returns, h.record_returns)
        (
          after_inner c (h.time w) (kept w ++ started_event c ∷ []) _ _ (h.kept-inner c _ ∙ before)
              ∙ append_assoc (kept w) (started_event c ∷ []) _,
          result_after c (h.time w) _ _,
        )
