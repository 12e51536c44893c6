-- ===== src/Middleware/Tests.antt =====
-- Hosts for the middleware at which the theorems' hypotheses hold, and runs on them.
use pyverge.Prelude.{
  ℕ, zero, suc, ◌+◌, ◌≤◌, ◌≡◌, ◌⊎◌, ltb, refl, true, false, Option, none, some, List, [], ◌∷◌, ◌++◌,
  if◌then◌else◌,
}
use pyverge.Prelude.Text.{Text, codes}
use pyverge.Prelude.Effects.{Error, exception, plain, base_exception, Result, ok, raised, Action}
use pyverge.Middleware.{
  Call, Answer, value, awaitable, Backend, AuditEvent, AuditSink, Transaction, TransactionManager,
  IdempotencyStore,
}
use pyverge.Middleware.Transactional
use pyverge.Middleware.Transactional.{Event, begun, committed, rolled_back, log-execute, log-await}
use pyverge.Middleware.Audit
use pyverge.Middleware.Audit.{kept-execute}
use pyverge.Middleware.Idempotency
use pyverge.Middleware.Idempotency.{
  Slot, free, claimed, completed, updated, is_free, result_of, execute-again, execute-claimed,
  execute-free,
}
use pyverge.Middleware.Retry
use pyverge.Middleware.Retry.{Tenacity, after_try, execute-first}
use pyverge.Middleware.RetryIdempotent.{retry-fails}

abbrev call : Call ℕ
call = record { run_id = codes "run_1"; entries = 2; payload = 5 }

abbrev boom : Error
boom = exception plain (codes "boom")

-- A backend that fails, one that answers, and one whose answer is awaited.
abbrev failing : {W : Type 0} → Backend W ℕ ℕ
failing = record { class_name = codes "Failing"; execute = λ c w. (raised boom, w) }

abbrev answering : {W : Type 0} → Backend W ℕ ℕ
answering = record { class_name = codes "Answering"; execute = λ c w. (ok (value c.payload), w) }

abbrev deferring : {W : Type 0} → Backend W ℕ ℕ
deferring = record {
  class_name = codes "Deferring";
  execute = λ c w. (ok (awaitable (λ u. (ok c.payload, u))), w);
}

abbrev transaction : Transaction (List Event)
transaction = record {
  commit = λ w. (ok tt, w ++ committed ∷ []);
  rollback = λ e w. (ok tt, w ++ rolled_back e ∷ []);
}

abbrev manager : TransactionManager (List Event) ℕ
manager = record { begin = λ c w. (ok transaction, w ++ begun ∷ []) }

abbrev logged : Transactional.IsLogged manager failing (λ w. w)
logged = record {
  transaction = λ c w. transaction;
  begin_returns = λ c w. refl;
  log-begin = λ c w. refl;
  log-commit = λ c v w. refl;
  log-rollback = λ c v w e. refl;
  log-inner = λ c w. refl;
}

log-execute_example :
    ((Transactional.wrap manager failing).execute call []).1 ≡ begun ∷ rolled_back boom ∷ []
log-execute_example = log-execute manager failing (λ w. w) logged call []

log-await_example :
    (Transactional.async_result manager failing (λ w. (ok 5, w)) transaction (begun ∷ [])).1
    ≡ begun ∷ committed ∷ []
log-await_example =
    log-await manager failing (λ w. w) logged call [] (begun ∷ []) (λ w. (ok 5, w)) (λ u. refl)

abbrev clock : Action (List AuditEvent) ℕ
clock w = (ok 7, w)

abbrev sink : AuditSink (List AuditEvent)
sink = record { record_event = λ e w. (ok tt, w ++ e ∷ []) }

abbrev str : Error → Text
str (exception cls t) = t
str (base_exception t) = t

abbrev kept : Audit.IsKept clock sink failing (λ w. w)
kept = record {
  time = λ w. 7;
  clock_returns = λ w. refl;
  kept-clock = λ w. refl;
  record_returns = λ e w. refl;
  kept-record = λ e w. refl;
  kept-inner = λ c w. refl;
}

abbrev audit_event : Text → Option ℕ → Option Text → AuditEvent
audit_event status duration error = record {
  name = codes "run";
  run_id = codes "run_1";
  status = status;
  duration = duration;
  entries = 2;
  backend = codes "Failing";
  error = error;
}

abbrev audited : Result (Answer (List AuditEvent) ℕ) × List AuditEvent
audited = (Audit.wrap clock str sink failing).execute call []

kept-execute_example :
    (audited.1
      ≡ audit_event (codes "started") none none
        ∷ audit_event (codes "failed") (some 0) (some (codes "boom"))
        ∷ [])
    × (audited.0 ≡ raised boom)
kept-execute_example = kept-execute clock str sink failing (λ w. w) kept call []

abbrev Store : Type 0
Store = Text → Slot ℕ

abbrev store : IdempotencyStore Store ℕ
store = record {
  get = λ k w. (ok (result_of (w k)), w);
  claim = λ k w. (ok (is_free (w k)), if is_free (w k) then updated w k claimed else w);
  complete = λ k v w. (ok tt, updated w k (completed v));
  release = λ k w. (ok tt, updated w k free);
}

abbrev key_factory : Call ℕ → Action Store Text
key_factory c w = (ok c.run_id, w)

claim_taken :
    (s : Slot ℕ) (k : Text) (w : Store)
    → is_free s ≡ false
    → (if is_free s then updated w k claimed else w) ≡ w
claim_taken free k w h = cc
claim_taken claimed k w h = refl
claim_taken (completed v) k w h = refl

claim_won :
    (s : Slot ℕ) (k : Text) (w : Store)
    → is_free s ≡ true
    → (if is_free s then updated w k claimed else w) ≡ updated w k claimed
claim_won free k w h = refl
claim_won claimed k w h = cc
claim_won (completed v) k w h = cc

module _ (inner : Backend Store ℕ ℕ)
    (quiet : (c : Call ℕ) (w : Store) → (inner.execute c w).1 ≡ w) where
  abbrev is_store : Idempotency.IsStore key_factory store inner (λ w. w)
  is_store = record {
    key_of = λ c. c.run_id;
    key_returns = λ c w. refl;
    get_returns = λ k w. refl;
    claim_returns = λ k w. refl;
    claim_taken = λ k w. claim_taken (w k) k w;
    slots-claim = λ k w. claim_won (w k) k w;
    complete_returns = λ k v w. refl;
    slots-complete = λ k v w. refl;
    release_returns = λ k w. refl;
    slots-release = λ k w. refl;
    slots-inner = quiet;
  }

abbrev empty : Store
empty k = free

abbrev holding : Slot ℕ → Store
holding s k = s

execute-claimed_example :
    (Idempotency.wrap (λ k. k) key_factory store answering).execute call (holding claimed)
    ≡ (raised (exception plain (codes "idempotency key run_1 is claimed")), holding claimed)
execute-claimed_example =
    execute-claimed (λ k. k) key_factory store answering (λ w. w) (is_store answering (λ c w. refl))
      call (holding claimed) refl

abbrev fresh_run : Result (Answer Store ℕ) × Store
fresh_run = (Idempotency.wrap (λ k. k) key_factory store answering).execute call empty

execute-free_example :
    (fresh_run.0 ≡ ok (value 5)) × (fresh_run.1 ≡ updated empty (codes "run_1") (completed 5))
execute-free_example =
    execute-free (λ k. k) key_factory store answering (λ w. w) (is_store answering (λ c w. refl))
      call empty refl

execute-again_example :
    (fresh_run.0 ≡ ok (value 5))
    × ((Idempotency.wrap (λ k. k) key_factory store answering).execute call fresh_run.1
        ≡ (ok (value 5), fresh_run.1))
execute-again_example =
    execute-again (λ k. k) key_factory store answering (λ w. w) (is_store answering (λ c w. refl))
      call call empty 5 refl refl refl

-- A retry loop as tenacity documents it.
retry_loop : {W : Type 0} (A : Type 0) → ℕ → Action W A → Action W A
retry_loop A zero m w = m w
retry_loop A (suc zero) m w = m w
retry_loop A (suc (suc n)) m w = after_try (retry_loop A (suc n) m) (m w)

retry_loop-last : {W : Type 0} (A : Type 0) (m : Action W A) (w : W) → retry_loop A 1 m w ≡ m w
unfolding retry_loop
retry_loop-last A m w = refl

retry_loop-next :
    {W : Type 0} (A : Type 0) (n : ℕ) (m : Action W A) (w : W)
    → retry_loop A (suc (suc n)) m w ≡ after_try (retry_loop A (suc n) m) (m w)
unfolding retry_loop
retry_loop-next A n m w = refl

abbrev tenacity : {W : Type 0} → Tenacity W
tenacity = record { retrying = retry_loop; last_try = retry_loop-last; next_try = retry_loop-next }

abbrev counting : Backend ℕ ℕ ℕ
counting = record { class_name = codes "Counting"; execute = λ c w. (raised boom, w + 1) }

-- Fails twice, then answers.
abbrev flaky : Backend ℕ ℕ ℕ
flaky = record {
  class_name = codes "Flaky";
  execute = λ c w. if ltb w 2 then (raised boom, w + 1) else (ok (value 7), w + 1);
}

execute-first_example :
    (k : ℕ) × (v : ℕ) × Retry.Failed (flaky.execute call) k 0 v
    × ((Retry.wrap tenacity 5 flaky).execute call 0 ≡ (
      Retry.passed_on tenacity flaky 5 call (flaky.execute call v).0,
      (flaky.execute call v).1,
    ))
    × ((suc k ≡ 5) ⊎ ((Retry.is_exception (flaky.execute call v).0 ≡ false) × (suc k ≤ 5)))
execute-first_example = execute-first tenacity flaky 4 call 0

abbrev retried : Result (Answer Store ℕ) × Store
retried =
    (Retry.wrap tenacity 3 (Idempotency.wrap (λ k. k) key_factory store deferring)).execute call
      empty

retry-fails_example :
    (a : Action Store ℕ) × (retried.0 ≡ ok (awaitable a))
    × (a retried.1
        ≡ (raised (exception plain (codes "idempotency key run_1 is claimed")), retried.1))
retry-fails_example =
    retry-fails (λ k. k) key_factory store deferring (λ w. w) (is_store deferring (λ c w. refl))
      tenacity 2 call empty (λ u. (ok 5, u)) refl refl
