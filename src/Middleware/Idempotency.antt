-- ===== src/Middleware/Idempotency.antt =====
-- runtime/middleware/idempotency.py
use mathlib.Core.Path.{fun_ext}
use pyverge.Prelude.{
  ap, beq_refl, ◌∙◌, if◌then◌else◌, ◌==◌, ◌≡◌, refl, Bool, true, false, Option, none, some, ◌++◌,
  arith,
}
use pyverge.Prelude.Text.{Text, codes, eq_text}
use pyverge.Prelude.Effects.{
  exception, plain, base_exception, Result, ok, raised, Action, on_raised, continue, pure, raise,
  on_exception, ◌>>=◌, ◌>>◌,
}
use pyverge.Middleware.{Call, Answer, value, awaitable, Backend, IdempotencyStore}

-- The RuntimeError of a key that another run has claimed; `repr` is Python's `repr(key)`.
abbrev pub claimed_message : (Text → Text) → Text → Text
claimed_message repr key = codes "idempotency key " ++ (repr key ++ codes " is claimed")

module _ {W P V : Type 0} (repr : Text → Text) (key_factory : Call P → Action W Text)
    (store : IdempotencyStore W V) (inner : Backend W P V) where
  -- `_async_result`
  unfoldable pub async_result : Action W V → Text → Action W V
  async_result result key = do
    v ← on_exception result (λ _. store.release key)
    store.complete key v
    pure v

  answered : Text → Answer W V → Action W (Answer W V)
  unfolding async_result
  answered key (awaitable result) = pure (awaitable (async_result result key))
  answered key (value v) = do store.complete key v; pure (value v)

  -- What a run does that could not claim the key.
  refused : Text → Option V → Action W (Answer W V)
  refused key none = raise (exception plain (claimed_message repr key))
  refused key (some v) = pure (value v)

  attempt : Call P → Text → Bool → Action W (Answer W V)
  unfolding answered refused
  attempt call key false = do cached ← store.get key; refused key cached
  attempt call key true = do
    result ← on_exception (inner.execute call) (λ _. store.release key)
    answered key result

  uncached : Call P → Text → Option V → Action W (Answer W V)
  unfolding attempt
  uncached call key (some v) = pure (value v)
  uncached call key none = do won ← store.claim key; attempt call key won

  execute : Call P → Action W (Answer W V)
  unfolding uncached
  execute call = do key ← key_factory call; cached ← store.get key; uncached call key cached

  -- `IdempotencyMiddleware.wrap`
  unfoldable pub wrap : Backend W P V
  unfolding execute
  wrap = record { class_name = codes "_Idempotency"; execute = execute }

-- What a store holds under a key.
pub data Slot (V : Type 0) : Type 0 where
  free claimed : Slot V
  completed : V → Slot V

abbrev pub result_of : {V : Type 0} → Slot V → Option V
result_of free = none
result_of claimed = none
result_of (completed v) = some v

abbrev pub is_free : {V : Type 0} → Slot V → Bool
is_free free = true
is_free claimed = false
is_free (completed v) = false

abbrev pub updated : {V : Type 0} → (Text → Slot V) → Text → Slot V → Text → Slot V
updated slots key s j = if key == j then s else slots j

-- A store that works as its protocol says: `get` shows results only and changes nothing, `claim`
-- takes a free key and leaves any other alone, `complete` and `release` write their key. The key
-- of a call is computed without an effect, and the inner backend leaves the store alone.
pub record IsStore {W P V : Type 0} (key_factory : Call P → Action W Text)
    (store : IdempotencyStore W V) (inner : Backend W P V) (slots : W → Text → Slot V)
    : Type 0 where
  pub key_of : Call P → Text
  pub key_returns : (c : Call P) (w : W) → key_factory c w ≡ (ok (key_of c), w)
  pub get_returns : (k : Text) (w : W) → store.get k w ≡ (ok (result_of (slots w k)), w)
  pub claim_returns : (k : Text) (w : W) → (store.claim k w).0 ≡ ok (is_free (slots w k))
  pub claim_taken : (k : Text) (w : W) → is_free (slots w k) ≡ false → (store.claim k w).1 ≡ w
  pub slots-claim :
      (k : Text) (w : W)
      → is_free (slots w k) ≡ true
      → slots (store.claim k w).1 ≡ updated (slots w) k claimed
  pub complete_returns : (k : Text) (v : V) (w : W) → (store.complete k v w).0 ≡ ok tt
  pub slots-complete :
      (k : Text) (v : V) (w : W)
      → slots (store.complete k v w).1 ≡ updated (slots w) k (completed v)
  pub release_returns : (k : Text) (w : W) → (store.release k w).0 ≡ ok tt
  pub slots-release : (k : Text) (w : W) → slots (store.release k w).1 ≡ updated (slots w) k free
  pub slots-inner : (c : Call P) (w : W) → slots (inner.execute c w).1 ≡ slots w

module _ {W P V : Type 0} (repr : Text → Text) (key_factory : Call P → Action W Text)
    (store : IdempotencyStore W V) (inner : Backend W P V) (slots : W → Text → Slot V)
    (h : IsStore key_factory store inner slots) where
  -- A result that is there is returned, the inner backend is not called, and nothing changes.
  execute-completed :
      (c : Call P) (w : W) (v : V)
      → slots w (h.key_of c) ≡ completed v
      → (wrap repr key_factory store inner).execute c w ≡ (ok (value v), w)
  unfolding wrap
  execute-completed c w v e = rw (h.key_returns, h.get_returns, e)

  -- A key that another run has claimed is refused with a RuntimeError, and nothing changes.
  pub execute-claimed :
      (c : Call P) (w : W)
      → slots w (h.key_of c) ≡ claimed
      → (wrap repr key_factory store inner).execute c w
        ≡ (raised (exception plain (claimed_message repr (h.key_of c))), w)
  unfolding wrap
  execute-claimed c w e =
      let k = h.key_of c in
      let lost : (store.claim k w).0 ≡ ok false = h.claim_returns k w ∙ rw e in
      let same : (store.claim k w).1 ≡ w = h.claim_taken k w (rw e) in
      rw (h.key_returns, h.get_returns, e, lost, same, h.get_returns, e)

  -- What a call leaves under its key. An awaitable holds the key until it ends, and an error that
  -- `except Exception` does not catch holds it for good.
  abbrev pub slot_after : Result (Answer W V) → Slot V
  slot_after (ok (value v)) = completed v
  slot_after (ok (awaitable m)) = claimed
  slot_after (raised (exception cls t)) = free
  slot_after (raised (base_exception t)) = claimed

  -- The caller gets the inner backend's outcome; an awaitable is wrapped, to end the claim.
  abbrev pub passed_on : Text → Result (Answer W V) → Result (Answer W V)
  passed_on key (ok (value v)) = ok (value v)
  passed_on key (ok (awaitable m)) =
      ok (awaitable (async_result repr key_factory store inner m key))
  passed_on key (raised e) = raised e

  -- The world in which the inner backend runs.
  abbrev pub won : Call P → W → W
  won c w = (store.claim (h.key_of c) w).1

  updated-updated :
      (f : Text → Slot V) (k : Text) (a b : Slot V) → updated (updated f k a) k b ≡ updated f k b
  updated-updated f k a b = fun_ext λ j. ground (arith)

  after_inner :
      (k : Text) (f : Text → Slot V) (u : W) (r : Result (Answer W V))
      → slots u ≡ updated f k claimed
      → let out =
          continue
            (on_raised (λ _. store.release k) (r, u)).0
            (answered repr key_factory store inner k)
            (on_raised (λ _. store.release k) (r, u)).1 in
        (out.0 ≡ passed_on k r) × (slots out.1 ≡ updated f k (slot_after r))
  unfolding answered
  after_inner k f u (ok (value v)) e = (
    rw h.complete_returns,
    rw h.complete_returns (rw (h.slots-complete, e) (updated-updated f k claimed (completed v))),
  )
  after_inner k f u (ok (awaitable m)) e = (refl, e)
  after_inner k f u (raised (exception cls t)) e = (
    rw h.release_returns,
    rw h.release_returns (rw (h.slots-release, e) (updated-updated f k claimed free)),
  )
  after_inner k f u (raised (base_exception t)) e = (refl, e)

  -- On a free key the inner backend runs once, with the key claimed. The caller gets its outcome,
  -- and the key is completed by a value, released by an exception, and otherwise stays claimed;
  -- no other key changes.
  pub execute-free :
      (c : Call P) (w : W)
      → slots w (h.key_of c) ≡ free
      → let out = (wrap repr key_factory store inner).execute c w in
        let r = (inner.execute c (won c w)).0 in
        (out.0 ≡ passed_on (h.key_of c) r)
        × (slots out.1 ≡ updated (slots w) (h.key_of c) (slot_after r))
  unfolding wrap
  execute-free c w e =
      let k = h.key_of c in
      let taken : (store.claim k w).0 ≡ ok true = h.claim_returns k w ∙ rw e in
      rw (h.key_returns, h.get_returns, e, taken)
        (after_inner k (slots w) _ _ (h.slots-inner c _ ∙ h.slots-claim k w (rw e)))

  -- Where the inner backend gives a value for a call whose key is free, the call returns the value,
  -- and any later call with the same key returns that value again: from the world that the first
  -- call leaves, without a call of the inner backend and without a change.
  pub execute-again :
      (c d : Call P) (w : W) (v : V)
      → slots w (h.key_of c) ≡ free
      → h.key_of d ≡ h.key_of c
      → (inner.execute c (won c w)).0 ≡ ok (value v)
      → let out = (wrap repr key_factory store inner).execute c w in
        (out.0 ≡ ok (value v))
        × ((wrap repr key_factory store inner).execute d out.1 ≡ (ok (value v), out.1))
  execute-again c d w v e same gives =
      let (result, left) = execute-free c w e in
      let u = ((wrap repr key_factory store inner).execute c w).1 in
      let there : slots u (h.key_of d) ≡ completed v =
        ap (λ f. f (h.key_of d)) left
        ∙ ap (λ r. updated (slots w) (h.key_of c) (slot_after r) (h.key_of d)) gives
        ∙ ap (λ k. if h.key_of c == k then completed v else slots w k) same
        ∙ rw (beq_refl (h.key_of c)) refl in
      (result ∙ ap (passed_on (h.key_of c)) gives, execute-completed d u v there)
