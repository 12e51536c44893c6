-- ===== src/Middleware/Retry.antt =====
-- runtime/middleware/retry.py
use pyverge.Prelude.{
  ℕ, zero, suc, ◌≤◌, ◌≡◌, refl, sym, subst, ap, ◌∙◌, arith, ◌⊎◌, inl, inr, Bool, true, false,
}
use pyverge.Prelude.Int.{ℤ, pos, negsuc}
use pyverge.Prelude.Text.{Text, codes}
use pyverge.Prelude.Effects.{
  Class, exception, plain, base_exception, Result, ok, raised, Action, continue, pure, ◌>>=◌,
}
use pyverge.Middleware.{Call, Answer, value, awaitable, Backend, await}

-- `RetryMiddleware.__init__`
unfoldable pub init : ℤ → Result ℕ
init (pos (suc n)) = ok (suc n)
init (pos zero) = raised (exception plain (codes "attempts must be >= 1"))
init (negsuc n) = raised (exception plain (codes "attempts must be >= 1"))

-- What tenacity does after a try that is not the last.
abbrev pub after_try : {W A : Type 0} → Action W A → Result A × W → Result A × W
after_try again (ok a, w) = (ok a, w)
after_try again (raised (exception cls t), w) = again w
after_try again (raised (base_exception t), w) = (raised (base_exception t), w)

-- `for attempt in Retrying(stop=stop_after_attempt(n), reraise=True): with attempt: m`, and its
-- asynchronous twin, as tenacity documents them: an exception is swallowed while tries are left,
-- the last one is raised again, and what is no `Exception` is never retried.
pub record Tenacity (W : Type 0) : Type 1 where
  pub retrying : (A : Type 0) → ℕ → Action W A → Action W A
  pub last_try : (A : Type 0) (m : Action W A) (w : W) → retrying A 1 m w ≡ m w
  pub next_try :
      (A : Type 0) (n : ℕ) (m : Action W A) (w : W)
      → retrying A (suc (suc n)) m w ≡ after_try (retrying A (suc n) m) (m w)

module _ {W P V : Type 0} (tenacity : Tenacity W) (attempts : ℕ) (inner : Backend W P V) where
  -- `_async_execute`: it calls the inner backend again, and awaits what that returns.
  unfoldable pub async_execute : Call P → Action W V
  unfolding await
  async_execute call = tenacity.retrying V attempts (do result ← inner.execute call; await result)

  unfoldable pub answered : Call P → Answer W V → Action W (Answer W V)
  unfolding async_execute
  answered call (awaitable result) = pure (awaitable (async_execute call))
  answered call (value v) = pure (value v)

  execute : Call P → Action W (Answer W V)
  unfolding answered
  execute call =
      tenacity.retrying (Answer W V) attempts (do result ← inner.execute call; answered call result)

  -- `RetryMiddleware.wrap`
  unfoldable pub wrap : Backend W P V
  unfolding execute
  wrap = record { class_name = codes "_Retry"; execute = execute }

-- The tries of `m` from the first world on that raised an exception, one from where the one before
-- it ended, up to the last world.
pub data Failed {W A : Type 0} (m : Action W A) : ℕ → W → W → Type 0 where
  none_failed : {w : W} → Failed m 0 w w
  one_failed :
      {k : ℕ} {w u v : W} {cls : Class} {t : Text}
      → m w ≡ (raised (exception cls t), u)
      → Failed m k u v
      → Failed m (suc k) w v

-- `except Exception` catches the outcome.
abbrev pub is_exception : {A : Type 0} → Result A → Bool
is_exception (ok a) = false
is_exception (raised (exception cls t)) = true
is_exception (raised (base_exception t)) = false

module _ {W A : Type 0} (tenacity : Tenacity W) (m : Action W A) where
  -- A loop of `n` tries from `w` ended as the try that follows `k` failed ones.
  abbrev pub EndsAfter : ℕ → W → Result A × W → Type 0
  EndsAfter n w out =
      (k : ℕ) × (v : W) × Failed m k w v
      × (out ≡ m v)
      × ((suc k ≡ n) ⊎ ((is_exception out.0 ≡ false) × (suc k ≤ n)))

  retrying-EndsAfter : (n : ℕ) (w : W) → EndsAfter (suc n) w (tenacity.retrying A (suc n) m w)
  retrying-EndsAfter zero w = (0, w, none_failed, tenacity.last_try A m w, inl refl)
  retrying-EndsAfter (suc n) w =
      subst (EndsAfter (suc (suc n)) w) (sym (tenacity.next_try A n m w))
        (go (λ v. retrying-EndsAfter n v) (m w) refl)
    where
      go :
          ((v : W) → EndsAfter (suc n) v (tenacity.retrying A (suc n) m v))
          → (out : Result A × W) → m w ≡ out
          → EndsAfter (suc (suc n)) w (after_try (tenacity.retrying A (suc n) m) out)
      go later (ok a, v) e = (0, w, none_failed, sym e, inr (refl, omega arith))
      go later (raised (base_exception t), v) e =
          (0, w, none_failed, sym e, inr (refl, omega arith))
      go later (raised (exception cls t), v) e =
          let (k, u, failed, same, end) = later v in
          (
            suc k,
            u,
            one_failed e failed,
            same,
            elim end [ inl all ↦ inl (ap suc all) | inr (final, less) ↦ inr (final, omega arith) ],
          )

module _ {W P V : Type 0} (tenacity : Tenacity W) (inner : Backend W P V) where
  -- The caller gets the outcome of the try; an awaitable is replaced by one that tries anew.
  abbrev pub passed_on : ℕ → Call P → Result (Answer W V) → Result (Answer W V)
  passed_on n c (ok (value x)) = ok (value x)
  passed_on n c (ok (awaitable m)) = ok (awaitable (async_execute tenacity n inner c))
  passed_on n c (raised e) = raised e

  body : Call P → ℕ → Action W (Answer W V)
  unfolding answered
  body c n = do result ← inner.execute c; answered tenacity n inner c result

  abbrev passed : ℕ → Call P → Result (Answer W V) × W → Result (Answer W V) × W
  passed n c out = (passed_on n c out.0, out.1)

  body_lem : (c : Call P) (n : ℕ) (w : W) → body c n w ≡ passed n c (inner.execute c w)
  unfolding body
  body_lem c n w = go (inner.execute c w)
    where
      go :
          (out : Result (Answer W V) × W)
          → continue out.0 (answered tenacity n inner c) out.1 ≡ passed n c out
      go (ok (value v), u) = refl
      go (ok (awaitable m), u) = refl
      go (raised e, u) = refl

  is_exception-passed_on :
      (n : ℕ) (c : Call P) (r : Result (Answer W V))
      → is_exception (passed_on n c r) ≡ is_exception r
  is_exception-passed_on n c (ok (value v)) = refl
  is_exception-passed_on n c (ok (awaitable m)) = refl
  is_exception-passed_on n c (raised (exception cls t)) = refl
  is_exception-passed_on n c (raised (base_exception t)) = refl

  -- A try of the loop fails with an exception only where the inner backend does.
  raised_inv :
      (n : ℕ) (c : Call P) (cls : Class) (t : Text) (u : W) (out : Result (Answer W V) × W)
      → passed n c out ≡ (raised (exception cls t), u)
      → out ≡ (raised (exception cls t), u)
  raised_inv n c cls t u (ok (value v), w) h = absurd (let r = ap (λ x. x.0) h in cc)
  raised_inv n c cls t u (ok (awaitable m), w) h = absurd (let r = ap (λ x. x.0) h in cc)
  raised_inv n c cls t u (raised e, w) h = h

  Failed-inner :
      (c : Call P) (n : ℕ) {k : ℕ} {w v : W}
      → Failed (body c n) k w v
      → Failed (inner.execute c) k w v
  Failed-inner c n none_failed = none_failed
  Failed-inner c n (one_failed {w = w} {u = u} {cls = cls} {t = t} e rest) =
      one_failed (raised_inv n c cls t u (inner.execute c w) (sym (body_lem c n w) ∙ e))
        (Failed-inner c n rest)

  -- A call answers as the first try of the inner backend does that raises no exception, and as the
  -- last one where all attempts raise one: the tries before it failed, each ran in the world that
  -- the one before it left, and after it nothing runs. An awaitable that it gives is replaced by
  -- one that tries anew.
  pub execute-first :
      (n : ℕ) (c : Call P) (w : W)
      → let out = (wrap tenacity (suc n) inner).execute c w in
        (k : ℕ) × (v : W) × Failed (inner.execute c) k w v
        × (out ≡ (passed_on (suc n) c (inner.execute c v).0, (inner.execute c v).1))
        × ((suc k ≡ suc n) ⊎ ((is_exception (inner.execute c v).0 ≡ false) × (suc k ≤ suc n)))
  unfolding wrap body
  execute-first n c w =
      let (k, v, failed, same, end) = retrying-EndsAfter tenacity (body c (suc n)) n w in
      let out = same ∙ body_lem c (suc n) v in
      (
        k,
        v,
        Failed-inner c (suc n) failed,
        out,
        elim end [
          | inl all ↦ inl all
          | inr (final, less) ↦ inr (
            sym (is_exception-passed_on (suc n) c (inner.execute c v).0)
                ∙ sym (ap (λ x. is_exception x.0) out)
                ∙ final,
            less,
          )
        ],
      )
