-- ===== src/Execution/Kept.antt =====
-- What a step leaves as it was: a quantity of the world that every hook, scope and migration of
-- the step keeps, up to what a scope does to it between its entry and its exit.
use pyverge.Prelude.{◌≡◌, refl, ◌∙◌, ap, Option, List, [], ◌∷◌, All}
use pyverge.Prelude.Effects.{Error, Result, ok, raised, Action}
use pyverge.Execution.Scopes.{Scope, unwind}
use pyverge.Execution.Steps.{
  Returned, now, later, Given, nothing, scope, async_scope, resolve, enter_all, enter_all_async,
  Stacked, entered, awaited_scope,
}

module _ {W K : Type 0} (f : W → K) where
  abbrev pub Keeps : {A : Type 0} → Action W A → Type 0
  Keeps m = (w : W) → f (m w).1 ≡ f w

  -- Between its entry and its exit the scope changes the quantity by `push`.
  pub record IsScope (s : Scope W) : Type 0 where
    pub push : K → K
    pub entering : (w : W) → (s.enter w).0 ≡ ok tt → f (s.enter w).1 ≡ push (f w)
    pub refused : (e : Error) (w : W) → (s.enter w).0 ≡ raised e → f (s.enter w).1 ≡ f w
    pub leaving : (o : Option Error) (w : W) (k : K) → f w ≡ push k → f (s.exit o w).1 ≡ k

  abbrev pub IsGiven : Given W → Type 0
  IsGiven nothing = Unit
  IsGiven (scope s) = IsScope s
  IsGiven (async_scope s) = IsScope s

  abbrev pub Yields : {A : Type 0} → (A → Type 0) → Result A → Type 0
  Yields P (ok a) = P a
  Yields P (raised e) = Unit

  -- The value, or what awaiting it gives.
  abbrev pub KeepsReturned : {A : Type 0} → (A → Type 0) → Returned W A → Type 0
  KeepsReturned P (now a) = P a
  KeepsReturned P (later m) = Keeps m × ((w : W) → Yields P (m w).0)

  -- The quantity after the scopes of a stack have been entered.
  abbrev pub pushed : K → (stack : List (Scope W)) → All IsScope stack → K
  pushed k [] h = k
  pushed k (s ∷ stack) h = h.0.push (pushed k stack h.1)

  pub f-unwind :
      {A : Type 0} (k : K) (stack : List (Scope W)) (h : All IsScope stack) (r : Result A) (w : W)
      → f w ≡ pushed k stack h
      → f (unwind stack (r, w)).1 ≡ k
  unfolding unwind
  f-unwind k [] h r w e = e
  f-unwind k (s ∷ stack) h r w e = f-unwind k stack h.1 _ _ (h.0.leaving _ w (pushed k stack h.1) e)

  -- A stack of scopes, with the quantity that they leave.
  abbrev pub Entered : K → (Result (Unit {0}) × List (Scope W)) × W → Type 0
  Entered k ((r, stack), w) = (h : All IsScope stack) × (f w ≡ pushed k stack h)

  entered_lem :
      (k : K) (s : Scope W) (stack : List (Scope W)) (rest : Stacked W)
      → (i : IsScope s) (h : All IsScope stack)
      → ((w : W)
          → (h' : All IsScope (s ∷ stack)) → f w ≡ pushed k (s ∷ stack) h'
          → Entered k (rest (s ∷ stack) w))
      → (w : W) (x : Result (Unit {0}) × W) → (x.0 ≡ ok tt → f x.1 ≡ i.push (f w))
      → ((error : Error) → x.0 ≡ raised error → f x.1 ≡ f w)
      → f w ≡ pushed k stack h
      → Entered k (entered s stack rest x)
  entered_lem k s stack rest i h go w (ok tt, u) a b p = go u (i, h) (a refl ∙ ap i.push p)
  entered_lem k s stack rest i h go w (raised x, u) a b p = (h, b x refl ∙ p)

  enter_lem :
      (k : K) (s : Scope W) (stack : List (Scope W)) (rest : Stacked W)
      → IsScope s
      → (h : All IsScope stack)
      → ((w : W)
          → (h' : All IsScope (s ∷ stack)) → f w ≡ pushed k (s ∷ stack) h'
          → Entered k (rest (s ∷ stack) w))
      → (w : W) → f w ≡ pushed k stack h
      → Entered k (entered s stack rest (s.enter w))
  enter_lem k s stack rest i h go w p =
      entered_lem k s stack rest i h go w (s.enter w) (i.entering w) (λ error. i.refused error w) p

  pub Entered-enter_all :
      (k : K) (results : List (Returned W (Given W))) (stack : List (Scope W))
      → All (KeepsReturned IsGiven) results
      → (h : All IsScope stack) (w : W) → f w ≡ pushed k stack h
      → Entered k (enter_all results stack w)
  unfolding enter_all
  Entered-enter_all k [] stack g h w e = (h, e)
  Entered-enter_all k (later m ∷ results) stack g h w e = (h, e)
  Entered-enter_all k (now (async_scope s) ∷ results) stack g h w e = (h, e)
  Entered-enter_all k (now nothing ∷ results) stack g h w e =
      Entered-enter_all k results stack g.1 h w e
  Entered-enter_all k (now (scope s) ∷ results) stack g h w e =
      enter_lem k s stack (λ t. enter_all results t) g.0 h
        (λ u h' e'. Entered-enter_all k results (s ∷ stack) g.1 h' u e') w e

  awaited_scope_lem :
      (k : K) (stack : List (Scope W)) (rest : Stacked W) (h : All IsScope stack)
      → ((t : List (Scope W)) (h' : All IsScope t) (w : W)
          → f w ≡ pushed k t h'
          → Entered k (rest t w))
      → (r : Result (Given W)) (w : W) → Yields IsGiven r
      → f w ≡ pushed k stack h
      → Entered k (awaited_scope stack rest (r, w))
  awaited_scope_lem k stack rest h go (raised e) w y p = (h, p)
  awaited_scope_lem k stack rest h go (ok nothing) w y p = go stack h w p
  awaited_scope_lem k stack rest h go (ok (scope s)) w y p =
      enter_lem k s stack rest y h (λ u h' e'. go (s ∷ stack) h' u e') w p
  awaited_scope_lem k stack rest h go (ok (async_scope s)) w y p =
      enter_lem k s stack rest y h (λ u h' e'. go (s ∷ stack) h' u e') w p

  pub Keeps-resolve :
      {A : Type 0} (P : A → Type 0) (r : Returned W A) → KeepsReturned P r → Keeps (resolve r)
  unfolding resolve
  Keeps-resolve P (now a) h w = refl
  Keeps-resolve P (later m) h w = h.0 w

  pub Yields-resolve :
      {A : Type 0} (P : A → Type 0) (r : Returned W A)
      → KeepsReturned P r
      → (w : W) → Yields P (resolve r w).0
  unfolding resolve
  Yields-resolve P (now a) h w = h
  Yields-resolve P (later m) h w = h.1 w

  pub Entered-enter_all_async :
      (k : K) (results : List (Returned W (Given W))) (stack : List (Scope W))
      → All (KeepsReturned IsGiven) results
      → (h : All IsScope stack) (w : W) → f w ≡ pushed k stack h
      → Entered k (enter_all_async results stack w)
  unfolding enter_all_async
  Entered-enter_all_async k [] stack g h w e = (h, e)
  Entered-enter_all_async k (r ∷ results) stack g h w e =
      awaited_scope_lem k stack (λ t. enter_all_async results t) h
        (λ t h' u e'. Entered-enter_all_async k results t g.1 h' u e') (resolve r w).0
        (resolve r w).1 (Yields-resolve IsGiven r g.0 w) (Keeps-resolve IsGiven r g.0 w ∙ e)
