-- ===== src/Planning.antt =====
-- core/graph/planning/path.py and plan.py: paths into a payload and the levels of a plan. An
-- object is told from an equal one by `object`, which stands for `id(entry)`.
pub mod Filters
pub mod Ready
pub mod Levels
pub mod Targets
pub mod Specs
pub mod Aims
pub mod Finder
pub mod Cached
pub mod Policy
pub mod Kept
mod Tests
use pyverge.Prelude.{
  ℕ, zero, suc, ◌+◌, Bool, true, false, not, ◌&&◌, List, [], ◌∷◌, ◌++◌, length, keep_if, any_of,
  if◌then◌else◌, nat_eq, ltb,
}
use pyverge.Prelude.Text.{Text, text_eq}

-- A step is a key of a dictionary or an index of a list.
pub data Step : Type 0 where
  key : Text → Step
  index : ℕ → Step

abbrev pub step_eq : Step → Step → Bool
step_eq (key s) (key t) = text_eq s t
step_eq (key s) (index i) = false
step_eq (index i) (key s) = false
step_eq (index i) (index j) = nat_eq i j

-- `self[: len(parent)] == parent`
abbrev pub starts_with : List Step → List Step → Bool
starts_with path [] = true
starts_with [] (s ∷ parent) = false
starts_with (t ∷ path) (s ∷ parent) = if step_eq t s then starts_with path parent else false

unfoldable pub is_descendant_of : List Step → List Step → Bool
is_descendant_of path parent = ltb (length parent) (length path) && starts_with path parent

-- `PathPlanEntry`: what it adds to its path is `E`.
pub record PlanEntry (E : Type 0) : Type 0 where
  pub object : ℕ
  pub path : List Step
  pub item : E

module _ {E : Type 0} where
  abbrev pub same_object : PlanEntry E → PlanEntry E → Bool
  same_object a b = nat_eq a.object b.object

  -- No other entry that remains lies below this one.
  unfoldable pub is_ready : List (PlanEntry E) → PlanEntry E → Bool
  unfolding is_descendant_of
  is_ready remaining e =
      not (any_of (λ o. not (same_object o e) && is_descendant_of o.path e.path) remaining)

  -- `if not ready: ready = [remaining[0]]`
  abbrev pub or_first : PlanEntry E → List (PlanEntry E) → List (PlanEntry E)
  or_first first [] = first ∷ []
  or_first first (e ∷ es) = e ∷ es

  abbrev pub is_chosen : List (PlanEntry E) → PlanEntry E → Bool
  is_chosen ready e = any_of (λ r. same_object r e) ready

  -- `while remaining`: each round takes an entry at least.
  unfoldable pub rounds : ℕ → List (PlanEntry E) → List (List (PlanEntry E))
  unfolding is_ready
  rounds zero remaining = []
  rounds (suc n) [] = []
  rounds (suc n) (e ∷ es) =
      let ready = or_first e (keep_if (is_ready (e ∷ es)) (e ∷ es)) in
      ready ∷ rounds n (keep_if (λ x. not (is_chosen ready x)) (e ∷ es))

  unfoldable pub levels : List (PlanEntry E) → List (List (PlanEntry E))
  unfolding rounds
  levels entries = rounds (length entries) entries

  -- The entries of all levels, one after another.
  abbrev pub flat : List (List (PlanEntry E)) → List (PlanEntry E)
  flat [] = []
  flat (l ∷ ls) = l ++ flat ls
