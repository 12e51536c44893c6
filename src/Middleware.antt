-- ===== src/Middleware.antt =====
-- runtime/middleware/types.py: backends, the middleware that wraps them, and the services of the
-- host that it calls. A service may raise, so each is an action.
pub mod Audit
pub mod Idempotency
pub mod Transactional
pub mod Retry
pub mod RetryIdempotent
mod Tests
use pyverge.Prelude.{ℕ, Bool, Option, none, some}
use pyverge.Prelude.Text.{Text, codes}
use pyverge.Prelude.Effects.{Error, exception, plain, Action, pure, raise}

-- The arguments of `execute` that the middleware reads: `run.run_id`, `len(plan.path.entries)`,
-- and the payload.
pub record Call (P : Type 0) : Type 0 where
  pub run_id : Text
  pub entries : ℕ
  pub payload : P

-- What `execute` returns: a value, or an awaitable (`hasattr(result, "__await__")`).
pub data Answer (W V : Type 0) : Type 0 where
  value : V → Answer W V
  awaitable : Action W V → Answer W V

-- A backend, and `type(self).__name__`.
pub record Backend (W P V : Type 0) : Type 0 where
  pub class_name : Text
  pub execute : Call P → Action W (Answer W V)

-- `await result`, which raises TypeError at what is not awaitable.
unfoldable pub await : {W V : Type 0} → Answer W V → Action W V
await (value v) =
    raise (exception plain (codes "TypeError: object can't be used in 'await' expression"))
await (awaitable m) = m

pub record AuditEvent : Type 0 where
  pub name : Text
  pub run_id : Text
  pub status : Text
  pub duration : Option ℕ
  pub entries : ℕ
  pub backend : Text
  pub error : Option Text

pub record AuditSink (W : Type 0) : Type 0 where
  pub record_event : AuditEvent → Action W Unit

pub record Transaction (W : Type 0) : Type 0 where
  pub commit : Action W Unit
  pub rollback : Error → Action W Unit

pub record TransactionManager (W P : Type 0) : Type 0 where
  pub begin : Call P → Action W (Transaction W)

pub record IdempotencyStore (W V : Type 0) : Type 0 where
  pub get : Text → Action W (Option V)
  pub claim : Text → Action W Bool
  pub complete : Text → V → Action W Unit
  pub release : Text → Action W Unit
