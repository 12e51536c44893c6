-- ===== src/Execution.antt =====
-- runtime/plan.py: the results of the entries of a plan, and how they enter the payload.
pub mod Replace
pub mod Results
pub mod Order
pub mod Applied
pub mod Scopes
pub mod Steps
pub mod Kept
pub mod Blocks
pub mod Lifecycle
pub mod Publishing
pub mod Reports
pub mod Modes
pub mod Bindings
pub mod Entries
pub mod Planner
pub mod Same
pub mod Stamps
pub mod Backends
pub mod Passes
pub mod Layout
pub mod Total
pub mod Coordinator
pub mod Runner
pub mod Announced
pub mod InPlace
mod Tests
mod StepTests
use pyverge.Prelude.{Bool, List, [], ◌∷◌}
use pyverge.Errors.{Outcome, ok, err, type_error, value_error, ◌>>=◌}
use pyverge.Planning.{Step, key, index}
use pyverge.Payload.{Value, text, list, dict, item_at, field_at, put_item, put_field}
use pyverge.Payload

pub record EntryResult : Type 0 where
  pub path : List Step
  pub value : Value

-- `value[head]` in `_replace_at`, after its tests of the step and its copy of the value: a text
-- that is not empty is not a mapping's pairs.
unfoldable pub child_of : Value → Step → Outcome Value
unfolding item_at field_at
child_of (list vs) (index i) = item_at vs i
child_of (list vs) (key k) = err type_error
child_of (dict fs) (key k) = field_at fs (key k)
child_of (dict fs) (index i) = err type_error
child_of (text (c ∷ cs)) (key k) = err value_error
child_of v s = err type_error

-- `clone[head] = changed`
unfoldable pub put_child : Value → Step → Value → Value
unfolding put_item put_field
put_child (list vs) (index i) w = list (put_item vs i w)
put_child (list vs) (key k) w = list vs
put_child (dict fs) s w = dict (put_field fs s w)
put_child v s w = v

-- `_replace_at`
unfoldable pub replace_at : Value → List Step → Value → Outcome Value
unfolding child_of put_child
replace_at v [] replacement = ok replacement
replace_at v (head ∷ tail) replacement = do
  child ← child_of v head
  changed ← replace_at child tail replacement
  ok (put_child v head changed)

-- `ExecutionPlan.entry_value`
unfoldable pub entry_value : Value → List Step → Outcome Value
entry_value payload path = Payload.get path payload

-- `ExecutionPlan.apply_results`
unfoldable pub apply_results : Value → List EntryResult → Outcome Value
unfolding replace_at
apply_results payload [] = ok payload
apply_results payload (result ∷ results) = do
  updated ← replace_at payload result.path result.value
  apply_results updated results
