-- ===== src/Execution/Blocks.antt =====
-- The block of a step keeps what its hooks, scopes and migration keep.
use pyverge.Prelude.{◌≡◌, refl, ◌∙◌, List, [], ◌∷◌, All}
use pyverge.Prelude.Effects.{
  Error, exception, base_exception, Result, ok, raised, Action, pure, raise, continue, ◌>>=◌,
}
use pyverge.Payload.{Value}
use pyverge.Telemetry.{StepContext}
use pyverge.Execution.Scopes.{Scope, with_stack, try, handled}
use pyverge.Execution.Steps.{
  Returned, now, later, Hook, raise_on_awaitable, resolve, invoke_hook, each,
}
use pyverge.Execution.Kept.{
  IsGiven, KeepsReturned, Yields, f-unwind, Entered, Keeps-resolve, Yields-resolve,
}

abbrev pub Any : {A : Type 0} → A → Type 0
Any a = Unit

module _ {W K : Type 0} (f : W → K) where
  -- The action keeps the quantity, and what it returns has the property.
  abbrev pub Ensures : {A : Type 0} → (A → Type 0) → Action W A → Type 0
  Ensures P m = (w : W) → (f (m w).1 ≡ f w) × Yields f P (m w).0

  continue_lem :
      {A B : Type 0} (P : A → Type 0) (Q : B → Type 0) (k : A → Action W B) (r : Result A) (w : W)
      → Yields f P r
      → ((a : A) → P a → Ensures Q (k a))
      → (f (continue r k w).1 ≡ f w) × Yields f Q (continue r k w).0
  continue_lem P Q k (ok a) w y h = h a y w
  continue_lem P Q k (raised e) w y h = (refl, tt)

  pub Ensures-bind :
      {A B : Type 0} (P : A → Type 0) (Q : B → Type 0) (m : Action W A) (k : A → Action W B)
      → Ensures P m
      → ((a : A) → P a → Ensures Q (k a))
      → Ensures Q (m >>= k)
  Ensures-bind P Q m k h g w =
      let (here, y) = h w in
      let (there, z) = continue_lem P Q k (m w).0 (m w).1 y g in (there ∙ here, z)

  pub Ensures-pure : {A : Type 0} (P : A → Type 0) (a : A) → P a → Ensures P (pure a)
  Ensures-pure P a p w = (refl, p)

  pub Ensures-raise : {A : Type 0} (P : A → Type 0) (e : Error) → Ensures P (raise e)
  Ensures-raise P e w = (refl, tt)

  pub Ensures-try :
      {A : Type 0} (P : A → Type 0) (m : Action W A) (handler : Error → Action W A)
      → Ensures P m
      → ((e : Error) → Ensures P (handler e))
      → Ensures P (try m handler)
  Ensures-try {A} P m handler h g w = go (m w) (h w)
    where
      go :
          (x : Result A × W)
          → (f x.1 ≡ f w) × Yields f P x.0
          → (f (handled handler x).1 ≡ f w) × Yields f P (handled handler x).0
      go (ok a, u) y = y
      go (raised (exception cls t), u) y =
          let (there, z) = g (exception cls t) u in (there ∙ y.0, z)
      go (raised (base_exception t), u) y = y

  pub Ensures-each :
      {A : Type 0} (P : A → Type 0) (check : A → Action W Unit) (results : List A)
      → ((a : A) → P a → Ensures Any (check a))
      → All P results
      → Ensures Any (each check results)
  unfolding each
  Ensures-each P check [] h p = Ensures-pure Any tt tt
  Ensures-each P check (a ∷ results) h p =
      Ensures-bind Any Any (check a) (λ _. each check results) (h a p.0)
        (λ _ _. Ensures-each P check results h p.1)

  pub Ensures-resolve :
      {A : Type 0} (P : A → Type 0) (r : Returned W A) → KeepsReturned f P r → Ensures P (resolve r)
  Ensures-resolve P r h w = (Keeps-resolve f P r h w, Yields-resolve f P r h w)

  pub Ensures-raise_on_awaitable :
      {A : Type 0} (P : A → Type 0) (e : Error) (r : Returned W A)
      → KeepsReturned f P r
      → Ensures P (raise_on_awaitable e r)
  unfolding raise_on_awaitable
  Ensures-raise_on_awaitable P e (now a) h w = (refl, h)
  Ensures-raise_on_awaitable P e (later m) h w = (refl, tt)

  -- A hook that keeps the quantity in each phase, and gives scopes that restore it.
  pub record IsKeptHook {V : Type 0} (h : Hook W V) : Type 0 where
    pub keeps_before :
        (s : StepContext V) (v : Value)
        → Ensures (KeepsReturned f (IsGiven f)) (h.before_migrate s v)
    pub keeps_after :
        (s : StepContext V) (v m : Value) → Ensures (KeepsReturned f Any) (h.after_migrate s v m)
    pub keeps_on_error :
        (s : StepContext V) (v : Value) (e : Error)
        → Ensures (KeepsReturned f Any) (h.on_error s v e)

  module _ {V : Type 0} where
    pub Ensures-invoke_hook :
        {A : Type 0} (R : Hook W V → Type 0) (P : A → Type 0) (phase : Hook W V → Action W A)
        (hooks : List (Hook W V))
        → ((h : Hook W V) → R h → Ensures P (phase h))
        → All R hooks
        → Ensures (All P) (invoke_hook phase hooks)
    unfolding invoke_hook
    Ensures-invoke_hook R P phase [] g h = Ensures-pure (All P) [] tt
    Ensures-invoke_hook R P phase (x ∷ hooks) g h =
        Ensures-bind P (All P) (phase x) _ (g x h.0) (λ a p.
          Ensures-bind (All P) (All P) (invoke_hook phase hooks) (λ l. pure (a ∷ l))
            (Ensures-invoke_hook R P phase hooks g h.1) (λ l q w. (refl, (p, q))))

  pub Ensures-with_stack :
      {A : Type 0} (P : A → Type 0) (enter : W → (Result (Unit {0}) × List (Scope W)) × W)
      (body : Action W A)
      → ((w : W) → Entered f (f w) (enter w))
      → Ensures P body
      → (w : W) → f (with_stack enter body w).1 ≡ f w
  unfolding with_stack
  Ensures-with_stack P enter body h g w =
      let (scopes, e) = h w in
      f-unwind f (f w) _ scopes _ _ (
        (continue_lem Any P (λ _. body) (enter w).0.0 (enter w).1 (any_yield (enter w).0.0)
          (λ _ _. g)).0
        ∙ e)
    where
      any_yield : (r : Result (Unit {0})) → Yields f Any r
      any_yield (ok a) = tt
      any_yield (raised e) = tt
