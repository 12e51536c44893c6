-- ===== src/Middleware/Transactional.antt =====
-- runtime/middleware/transaction.py
use pyverge.Prelude.{◌≡◌, ap, ◌∙◌, List, [], ◌∷◌, ◌++◌}
use mathlib.Core.List.{append-nil, append_assoc}
use pyverge.Prelude.Text.{codes}
use pyverge.Prelude.Effects.{
  Error, exception, base_exception, Result, ok, raised, Action, pure, on_raised, continue,
  world-continue-pure, continue-reraise_after, on_exception, ◌>>=◌, ◌>>◌,
}
use pyverge.Middleware.{Call, Answer, value, awaitable, Backend, Transaction, TransactionManager}

module _ {W P V : Type 0} (manager : TransactionManager W P) (inner : Backend W P V) where
  -- `_async_result`
  unfoldable pub async_result : Action W V → Transaction W → Action W V
  async_result result transaction = do
    v ← on_exception result transaction.rollback
    transaction.commit
    pure v

  answered : Transaction W → Answer W V → Action W (Answer W V)
  unfolding async_result
  answered transaction (awaitable result) = pure (awaitable (async_result result transaction))
  answered transaction (value v) = do transaction.commit; pure (value v)

  execute : Call P → Action W (Answer W V)
  unfolding answered
  execute call = do
    transaction ← manager.begin call
    result ← on_exception (inner.execute call) transaction.rollback
    answered transaction result

  -- `TransactionMiddleware.wrap`
  unfoldable pub wrap : Backend W P V
  unfolding execute
  wrap = record { class_name = codes "_Transaction"; execute = execute }

-- What a transaction went through.
pub data Event : Type 0 where
  begun committed : Event
  rolled_back : Error → Event

-- A transaction manager that keeps a log, and a backend that leaves the log alone.
pub record IsLogged {W P V : Type 0} (manager : TransactionManager W P) (inner : Backend W P V)
    (log : W → List Event) : Type 0 where
  pub transaction : Call P → W → Transaction W
  pub begin_returns : (c : Call P) (w : W) → (manager.begin c w).0 ≡ ok (transaction c w)
  pub log-begin : (c : Call P) (w : W) → log (manager.begin c w).1 ≡ log w ++ begun ∷ []
  pub log-commit :
      (c : Call P) (v w : W) → log ((transaction c v).commit w).1 ≡ log w ++ committed ∷ []
  pub log-rollback :
      (c : Call P) (v w : W) (e : Error)
      → log ((transaction c v).rollback e w).1 ≡ log w ++ rolled_back e ∷ []
  pub log-inner : (c : Call P) (w : W) → log (inner.execute c w).1 ≡ log w

-- How a call ends the transaction at once: an awaitable leaves it open, and so does an error that
-- `except Exception` does not catch.
abbrev pub ending : {W V : Type 0} → Result (Answer W V) → List Event
ending (ok (value v)) = committed ∷ []
ending (ok (awaitable m)) = []
ending (raised (exception cls t)) = rolled_back (exception cls t) ∷ []
ending (raised (base_exception t)) = []

-- How the awaited result ends it.
abbrev pub awaited_ending : {V : Type 0} → Result V → List Event
awaited_ending (ok v) = committed ∷ []
awaited_ending (raised (exception cls t)) = rolled_back (exception cls t) ∷ []
awaited_ending (raised (base_exception t)) = []

module _ {W P V : Type 0} (manager : TransactionManager W P) (inner : Backend W P V)
    (log : W → List Event) (h : IsLogged manager inner log) where
  -- The world in which the inner backend runs.
  abbrev pub opened : Call P → W → W
  opened c w = (manager.begin c w).1

  after_inner :
      (c : Call P) (w v : W) (r : Result (Answer W V))
      → log v ≡ log w ++ begun ∷ []
      → log
          (continue
            (on_raised (h.transaction c w).rollback (r, v)).0
            (answered manager inner (h.transaction c w))
            (on_raised (h.transaction c w).rollback (r, v)).1).1
        ≡ log w ++ begun ∷ ending r
  unfolding answered
  after_inner c w v (ok (value x)) e =
      ap log (world-continue-pure ((h.transaction c w).commit v).0 (value x) _)
      ∙ rw (h.log-commit, e, append_assoc)
  after_inner c w v (ok (awaitable m)) e = e
  after_inner c w v (raised (exception cls t)) e =
      rw (continue-reraise_after, h.log-rollback, e, append_assoc)
  after_inner c w v (raised (base_exception t)) e = e

  -- Each call begins one transaction, and ends it as the inner backend's outcome says: committed
  -- for a value, rolled back for an exception, and nothing else. An awaitable leaves it open, and so
  -- does an error that `except Exception` does not catch.
  pub log-execute :
      (c : Call P) (w : W)
      → log ((wrap manager inner).execute c w).1
        ≡ log w ++ begun ∷ ending (inner.execute c (opened c w)).0
  unfolding wrap
  log-execute c w = rw h.begin_returns (
      after_inner c w _ (inner.execute c (opened c w)).0
        (h.log-inner c (opened c w) ∙ h.log-begin c w))

  -- Awaiting what a call left open commits once on a value and rolls back once on an exception; an
  -- error that `except Exception` does not catch, such as a cancellation, leaves the transaction
  -- open.
  pub log-await :
      (c : Call P) (v w : W) (m : Action W V)
      → ((u : W) → log (m u).1 ≡ log u)
      → log (async_result manager inner m (h.transaction c v) w).1 ≡ log w ++ awaited_ending (m w).0
  unfolding async_result
  log-await c v w m quiet = go (m w).0 (m w).1 (quiet w)
    where
      go :
          (r : Result V) (u : W)
          → log u ≡ log w
          → log
              (continue
                (on_raised (h.transaction c v).rollback (r, u)).0
                (λ x. (h.transaction c v).commit >> pure x)
                (on_raised (h.transaction c v).rollback (r, u)).1).1
            ≡ log w ++ awaited_ending r
      go (ok x) u e =
          ap log (world-continue-pure ((h.transaction c v).commit u).0 x _) ∙ rw (h.log-commit, e)
      go (raised (exception cls t)) u e = rw (continue-reraise_after, h.log-rollback, e)
      go (raised (base_exception t)) u e = rw (append-nil, e)
