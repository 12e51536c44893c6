-- ===== src/PlanCache/Tests.antt =====
-- Runs of the cache, and the theorems at concrete inputs.
use pyverge.Prelude.{ℕ, ◌≡◌, refl, none, List, [], ◌∷◌, eq_nat}
use pyverge.Prelude.Int.{pos, negsuc}
use pyverge.PlanCache.{PlanCache, init}
use pyverge.Prelude.Dict.{get, set_item, move_to_end}
use pyverge.PlanCache.Coherence.{Call, get_call, put_call, run, step, IsCache, run-IsCache}

abbrev full : PlanCache ℕ ℕ
full = record { size = pos 2; entries = (1, 10) ∷ (2, 20) ∷ [] }

abbrev script : List (Call ℕ ℕ)
script = put_call 3 30 ∷ get_call 1 ∷ put_call 2 20 ∷ put_call 1 10 ∷ []

-- The plan of key 1 was used after that of key 2, so key 2 is evicted.
evicts_least_recent :
    (run (record { size = pos 2; entries = [] }) script).entries ≡ (1, 10) ∷ (3, 30) ∷ []
unfolding run step get set_item move_to_end
evicts_least_recent = refl

refuses_below : init {K = ℕ} {V = ℕ} (negsuc 1) ≡ none
unfolding init
refuses_below = refl

run-IsCache_example : IsCache (run (record { size = pos 2; entries = [] }) script) script
unfolding init
run-IsCache_example = run-IsCache (pos 2) (record { size = pos 2; entries = [] }) script refl
