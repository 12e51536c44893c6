-- ===== src/Middleware/RetryIdempotent.antt =====
-- A retry middleware around an idempotency middleware (runtime/middleware/retry.py and
-- runtime/middleware/idempotency.py), over a backend whose answers are awaited.
use pyverge.Prelude.{ℕ, zero, suc, ◌≡◌, ap, ◌∙◌, beq_refl}
use pyverge.Prelude.Text.{Text}
use pyverge.Prelude.Effects.{exception, plain, Result, ok, raised, Action, ◌>>=◌}
use pyverge.Middleware.{Call, Answer, awaitable, Backend, IdempotencyStore, await}
use pyverge.Middleware.Idempotency
use pyverge.Middleware.Idempotency.{
  IsStore, free, claimed, claimed_message, execute-claimed, execute-free, updated,
}
use pyverge.Middleware.Retry
use pyverge.Middleware.Retry.{Tenacity, async_execute, answered}

module _ {W P V : Type 0} (repr : Text → Text) (key_factory : Call P → Action W Text)
    (store : IdempotencyStore W V) (inner : Backend W P V) (slots : W → Text → Idempotency.Slot V)
    (h : IsStore key_factory store inner slots) (tenacity : Tenacity W) where
  abbrev once : Backend W P V
  once = Idempotency.wrap repr key_factory store inner

  abbrev pub refusal : Call P → Result V
  refusal c = raised (exception plain (claimed_message repr (h.key_of c)))

  -- While the key is claimed, every try of the awaited work is refused.
  async_execute-claimed :
      (n : ℕ) (c : Call P) (w : W)
      → slots w (h.key_of c) ≡ claimed
      → async_execute tenacity (suc n) once c w ≡ (refusal c, w)
  unfolding async_execute
  async_execute-claimed n c w e = go n
    where
      m : Action W V
      m = do result ← once.execute c; await result

      fails : m w ≡ (refusal c, w)
      fails = rw (execute-claimed repr key_factory store inner slots h c w e)

      go : (n : ℕ) → tenacity.retrying V (suc n) m w ≡ (refusal c, w)
      go zero = tenacity.last_try V m w ∙ fails
      go (suc n) = tenacity.next_try V n m w ∙ rw fails (go n)

  -- On a free key, over a backend that answers with an awaitable, the retried call hands out an
  -- awaitable that always fails: its first try claimed the key and was thrown away, so each later
  -- try is refused, whatever the number of attempts.
  pub retry-fails :
      (n : ℕ) (c : Call P) (w : W) (m : Action W V)
      → slots w (h.key_of c) ≡ free
      → (inner.execute c (Idempotency.won repr key_factory store inner slots h c w)).0
        ≡ ok (awaitable m)
      → let out = (Retry.wrap tenacity (suc n) once).execute c w in
        (a : Action W V) × (out.0 ≡ ok (awaitable a)) × (a out.1 ≡ (refusal c, out.1))
  unfolding Retry.wrap
  retry-fails n c w m e async =
      (again, ap (λ out. out.0) (stops n), rw stops (async_execute-claimed n c u held))
    where
      again : Action W V
      again = async_execute tenacity (suc n) once c

      u : W
      u = (once.execute c w).1

      body : Action W (Answer W V)
      body = do result ← once.execute c; answered tenacity (suc n) once c result

      ran :
          (let r = (inner.execute c (Idempotency.won repr key_factory store inner slots h c w)).0 in
            ((once.execute c w).0
              ≡ Idempotency.passed_on repr key_factory store inner slots h (h.key_of c) r)
            × (slots u
                ≡ updated
                    (slots w)
                    (h.key_of c)
                    (Idempotency.slot_after repr key_factory store inner slots h r)))
      ran = execute-free repr key_factory store inner slots h c w e

      first :
          (once.execute c w).0
          ≡ ok (awaitable (Idempotency.async_result repr key_factory store inner m (h.key_of c)))
      first = ran.0 ∙ rw async

      held : slots u (h.key_of c) ≡ claimed
      held = ap (λ f. f (h.key_of c)) ran.1 ∙ rw (async, beq_refl (h.key_of c))

      fires : body w ≡ (ok (awaitable again), u)
      fires = rw first

      stops : (k : ℕ) → tenacity.retrying (Answer W V) (suc k) body w ≡ (ok (awaitable again), u)
      stops zero = tenacity.last_try (Answer W V) body w ∙ fires
      stops (suc k) = tenacity.next_try (Answer W V) k body w ∙ rw fires
