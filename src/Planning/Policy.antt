-- ===== src/Planning/Policy.antt =====
-- core/graph/planning/direction.py and policy.py: which entries of a plan are kept.
use pyverge.Prelude.{
  Bool, true, false, not, ◌&&◌, List, [], ◌∷◌, length, any_of, if◌then◌else◌, ◌==◌,
}
use pyverge.Prelude.Int.{ℤ, exceeds}
use pyverge.Prelude.Linear.{Linear, lt}
use pyverge.Prelude.Effects.{Result, ok, raised}
use pyverge.Errors.{Fault, catalog_error, value_error, ◌>>=◌, bind_inv, ok_inj}
use pyverge.Errors
use pyverge.Identity.{NodeId, EdgeId, make_edge, default_discriminator}
use pyverge.Identity.Order.{linear_node, eq_node}

-- `AnyDirection`, `ForwardDirection` and `BackwardDirection`
pub data Direction : Type 0 where
  any_direction forward backward : Direction

-- What a configuration does with an entry that it rejects; another word is refused.
pub data Violation : Type 0 where
  raise skip unknown : Violation

pub record PathPlanEntry (V : Type 0) : Type 0 where
  pub source : NodeId V
  pub target : NodeId V
  pub steps : List (NodeId V × NodeId V)
  pub edges : List (EdgeId V)

pub record PolicyEngine : Type 0 where
  pub direction : Direction
  pub on_direction_violation : Violation
  pub on_missing_path : Violation
  pub depth_limit : ℤ
  pub on_depth_violation : Violation

-- The entry is not kept, if the configuration does not raise.
unfoldable pub violation : Violation → Errors.Outcome Bool
violation raise = Errors.err catalog_error
violation skip = Errors.ok false
violation unknown = Errors.err value_error

abbrev pub is_empty : {A : Type 0} → List A → Bool
is_empty [] = true
is_empty (x ∷ xs) = false

abbrev made : {A : Type 0} → Result A → Errors.Outcome A
made (ok a) = Errors.ok a
made (raised e) = Errors.err value_error

-- `EdgeKey.from_pair(source, target)` of each step.
unfoldable pub edges_of :
    {V : Type 0} → List (NodeId V × NodeId V) → Errors.Outcome (List (EdgeId V))
unfolding make_edge
edges_of [] = Errors.ok []
edges_of ((source, target) ∷ steps) = do
  e ← made (make_edge source target default_discriminator)
  es ← edges_of steps
  Errors.ok (e ∷ es)

-- `entry.edges or tuple(...)`
abbrev pub edges_or :
    {V : Type 0}
    → List (EdgeId V)
    → Errors.Outcome (List (EdgeId V))
    → Errors.Outcome (List (EdgeId V))
edges_or [] steps = steps
edges_or (e ∷ es) steps = Errors.ok (e ∷ es)

module _ {V : Type 0} ⦃o : Linear V⦄ where
  unfoldable pub allows : Direction → NodeId V → NodeId V → Bool
  allows any_direction source target = true
  allows forward source target = lt source target
  allows backward source target = lt target source

  module _ (engine : PolicyEngine) (has_migration : EdgeId V → Bool) where
    -- What becomes of one entry: it is kept, or it violates a rule.
    unfoldable pub judge : PathPlanEntry V → Errors.Outcome Bool
    unfolding allows violation edges_of
    judge entry =
        if not (allows engine.direction entry.source entry.target)
        then violation engine.on_direction_violation
        else if exceeds (length entry.steps) engine.depth_limit
        then violation engine.on_depth_violation
        else if not (entry.source == entry.target) && is_empty entry.steps
        then violation engine.on_missing_path
        else edges_or entry.edges (edges_of entry.steps) >>= λ edges.
            if any_of (λ e. not (has_migration e)) edges
            then violation engine.on_missing_path
            else Errors.ok true

    unfoldable pub apply : List (PathPlanEntry V) → Errors.Outcome (List (PathPlanEntry V))
    unfolding judge
    apply [] = Errors.ok []
    apply (entry ∷ entries) = do
      kept ← judge entry
      rest ← apply entries
      Errors.ok (if kept then entry ∷ rest else rest)
