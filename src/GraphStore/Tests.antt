-- ===== src/GraphStore/Tests.antt =====
-- Runs of the graph store, for tests. A graph is a number, and its revision is its half.
use pyverge.Prelude.{ℕ, ◌≡◌, refl, none, some, [], ◌∷◌, eq_nat}
use pyverge.Errors.{ok, err, revision_conflict}
use pyverge.GraphStore.{Published, MemoryGraphStore, init, save}
use pyverge.GraphStore.Generations.{
  Save, run_save, run, successes, generation, IsPaired, save-once, run_lem,
}

abbrev revision_of : ℕ → ℕ
revision_of g = g

abbrev call : ℕ → Save revision_of
call g = record { now = 7; graph = g; expected_revision = none; expected_generation = none }

abbrev swap : ℕ → Save revision_of
swap g = record { now = 8; graph = g; expected_revision = none; expected_generation = some 1 }

abbrev first : Published ℕ
first = record { revision = 5; generation = 1; generated_at = 7 }

abbrev stored : MemoryGraphStore ℕ ℕ
stored = record { graph = some 5; published = some first }

abbrev second : Published ℕ
second = record { revision = 6; generation = 2; generated_at = 8 }

saves : (run_save revision_of (swap 6) stored).0 ≡ ok second
unfolding save
saves = refl

save-once_example :
    (run_save revision_of (swap 9) (run_save revision_of (swap 6) stored).1).0
    ≡ err revision_conflict
save-once_example = save-once revision_of (swap 6) (swap 9) stored second first refl refl saves

run_lem_example :
    (generation revision_of (run revision_of (call 5 ∷ swap 6 ∷ swap 9 ∷ []) init)
      ≡ successes revision_of (call 5 ∷ swap 6 ∷ swap 9 ∷ []) init)
    × IsPaired revision_of
        (run revision_of (call 5 ∷ swap 6 ∷ swap 9 ∷ []) init).graph
        (run revision_of (call 5 ∷ swap 6 ∷ swap 9 ∷ []) init).published
run_lem_example = run_lem revision_of (call 5 ∷ swap 6 ∷ swap 9 ∷ [])
