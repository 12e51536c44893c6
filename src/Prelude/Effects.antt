-- ===== src/Prelude/Effects.antt =====
-- Calls that change the world and may raise. What was done before a raise stays done, so the
-- world comes back beside the error.
use mathlib.Core.Path.{◌≡◌, refl}
use pyverge.Prelude.Text.{Text}

-- The classes of exceptions that the runtime tells apart: `AsyncExecutionRequired`,
-- `MigrationApplicationError`, `TargetValidationError`, and any other.
pub data Class : Type 0 where
  async_required migration_application target_validation plain : Class

-- `exception` is a subclass of Python's `Exception`, which `except Exception` catches;
-- `base_exception` is any other, such as `KeyboardInterrupt`, which it does not.
pub data Error : Type 0 where
  exception : Class → Text → Error
  base_exception : Text → Error

pub data Result {ℓ} (A : Type ℓ) : Type ℓ where
  ok : A → Result A
  raised : Error → Result A

abbrev pub Action {ℓ} : Type ℓ → Type ℓ → Type ℓ
Action W A = W → Result A × W

-- What a handler leaves of the error that it handled: its own raise replaces it.
abbrev pub reraise_after {ℓ} : {A : Type ℓ} → Error → Result (Unit {ℓ}) → Result A
reraise_after e (ok _) = raised e
reraise_after e (raised e') = raised e'

module _ {ℓ} {W A : Type ℓ} where
  abbrev pub pure : A → Action W A
  pure a w = (ok a, w)

  abbrev pub raise : Error → Action W A
  raise e w = (raised e, w)

  abbrev pub on_raised : (Error → Action W (Unit {ℓ})) → Result A × W → Result A × W
  on_raised handler (ok a, w) = (ok a, w)
  on_raised handler (raised (base_exception t), w) = (raised (base_exception t), w)
  on_raised handler (raised (exception cls t), w) =
      let (r, w') = handler (exception cls t) w in (reraise_after (exception cls t) r, w')

  -- `try: m except Exception as error: handler(error); raise`
  abbrev pub on_exception : Action W A → (Error → Action W (Unit {ℓ})) → Action W A
  on_exception m handler w = on_raised handler (m w)

module _ {ℓ} {W A B : Type ℓ} where
  abbrev pub continue : Result A → (A → Action W B) → Action W B
  continue (ok a) f w = f a w
  continue (raised e) f w = (raised e, w)

  infixl 5 ◌>>=◌ ◌>>◌
  abbrev pub ◌>>=◌ : Action W A → (A → Action W B) → Action W B
  ◌>>=◌ m f w = let (r, w') = m w in continue r f w'

  abbrev pub ◌>>◌ : Action W A → Action W B → Action W B
  m >> k = m >>= λ _. k

  pub world-continue-pure : (r : Result A) (b : B) (w : W) → (continue r (λ _. pure b) w).1 ≡ w
  world-continue-pure (ok a) b w = refl
  world-continue-pure (raised e) b w = refl

  pub continue-reraise_after :
      (e : Error) (r : Result (Unit {ℓ})) (f : A → Action W B) (w : W)
      → continue (reraise_after {A = A} e r) f w ≡ (reraise_after {A = B} e r, w)
  continue-reraise_after e (ok u) f w = refl
  continue-reraise_after e (raised e') f w = refl
