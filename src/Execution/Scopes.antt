-- ===== src/Execution/Scopes.antt =====
-- `contextlib.ExitStack` and `AsyncExitStack`, as runtime/plan.py uses them, and `try` blocks that
-- the runtime shares. By its protocol a scope's exit returns None, so it swallows no error.
use pyverge.Prelude.{Option, none, some, List, [], ◌∷◌}
use pyverge.Prelude.Effects.{
  Error, exception, base_exception, Result, ok, raised, Action, continue, reraise_after,
}

-- A context manager: `__exit__` is told the error with which the block ends.
pub record Scope (W : Type 0) : Type 0 where
  pub enter : Action W Unit
  pub exit : Option Error → Action W Unit

abbrev pub error_of : {A : Type 0} → Result A → Option Error
error_of (ok a) = none
error_of (raised e) = some e

-- An exit's own error takes the place of the block's.
abbrev pub after_exit : {A : Type 0} → Result A → Result (Unit {0}) → Result A
after_exit r (ok u) = r
after_exit r (raised e) = raised e

module _ {W A : Type 0} where
  -- The scopes are left, the innermost first, each told what the block or a later exit raised.
  unfoldable pub unwind : List (Scope W) → Result A × W → Result A × W
  unwind [] (r, w) = (r, w)
  unwind (s ∷ stack) (r, w) =
      let (x, w') = s.exit (error_of r) w in unwind stack (after_exit r x, w')

  -- `with ExitStack() as stack: enter(stack); body`
  unfoldable pub with_stack :
      (W → (Result (Unit {0}) × List (Scope W)) × W) → Action W A → Action W A
  unfolding unwind
  with_stack enter body w =
      let ((r, stack), w') = enter w in unwind stack (continue r (λ _. body) w')

  -- `try: m except Exception as error: handler(error)`, where the handler raises.
  abbrev pub handled : (Error → Action W A) → Result A × W → Result A × W
  handled handler (ok a, w) = (ok a, w)
  handled handler (raised (exception cls t), w) = handler (exception cls t) w
  handled handler (raised (base_exception t), w) = (raised (base_exception t), w)

  abbrev pub try : Action W A → (Error → Action W A) → Action W A
  try m handler w = handled handler (m w)

  -- `try: m except BaseException as error: handler(error); raise`
  abbrev pub observed : (Error → Action W (Unit {0})) → Result A × W → Result A × W
  observed handler (ok a, w) = (ok a, w)
  observed handler (raised e, w) = let (r, w') = handler e w in (reraise_after e r, w')

  abbrev pub on_any : Action W A → (Error → Action W (Unit {0})) → Action W A
  on_any m handler w = observed handler (m w)
