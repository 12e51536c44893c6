-- ===== src/Errors.antt =====
-- core/registry/errors.py, core/graph/errors.py and core/versioning/errors.py: the exceptions of
-- the catalogue and the graph, by their classes, and code that raises them.
use mathlib.Core.Path.{◌≡◌, refl}
use mathlib.Core.Bool.{Bool, true, false}

pub data Fault : Type 0 where
  catalog_error model_not_found model_already_registered model_conflict : Fault
  migration_not_found migration_conflict migration_path_error health_validation : Fault
  revision_mismatch version_strategy_mismatch revision_conflict graph_cycle : Fault
  value_error type_error key_error index_error attribute_error node_conflict : Fault

-- `isinstance(error, CatalogError)`
abbrev pub is_catalog_error : Fault → Bool
is_catalog_error f = elim f [
  | catalog_error ↦ true
  | model_not_found ↦ true
  | model_already_registered ↦ true
  | model_conflict ↦ true
  | migration_not_found ↦ true
  | migration_conflict ↦ true
  | health_validation ↦ true
  | _ ↦ false
]

pub data Outcome {ℓ} (A : Type ℓ) : Type ℓ where
  ok : A → Outcome A
  err : Fault → Outcome A

infixl 5 ◌>>=◌ ◌>>◌
abbrev pub ◌>>=◌ {ℓ κ} : {A : Type ℓ} {B : Type κ} → Outcome A → (A → Outcome B) → Outcome B
ok a >>= f = f a
err e >>= f = err e

abbrev pub ◌>>◌ {ℓ κ} : {A : Type ℓ} {B : Type κ} → Outcome A → Outcome B → Outcome B
m >> n = m >>= λ _. n

pub bind_inv {ℓ κ} :
    {X : Type ℓ} {Y : Type κ} (m : Outcome X) (k : X → Outcome Y) {y : Y}
    → (m >>= k) ≡ ok y
    → (x : X) × (m ≡ ok x) × (k x ≡ ok y)
bind_inv (ok x) k h = (x, refl, h)
bind_inv (err f) k h = cc

pub ok_inj {ℓ} : {A : Type ℓ} {a b : A} → ok a ≡ ok b → a ≡ b
ok_inj h = cc
