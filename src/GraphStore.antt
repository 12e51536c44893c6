-- ===== src/GraphStore.antt =====
-- core/graph/store.py: the in-memory store of locked graphs, with compare-and-swap publication.
-- The clock is read once for each graph that is published; its readings are given as numbers.
pub mod Generations
mod Tests
use pyverge.Prelude.{
  ℕ, zero, suc, Bool, true, false, not, ◌&&◌, ◌||◌, Option, none, some, ◌==◌, nat_eq, eq_nat, Eq,
  if◌then◌else◌,
}
use pyverge.Errors.{Outcome, ok, err, revision_conflict}

-- What the store reads of a graph, `G`: its revision, `R`.
pub record Published (R : Type 0) : Type 0 where
  pub revision : R
  pub generation : ℕ
  pub generated_at : ℕ

pub record MemoryGraphStore (G R : Type 0) : Type 0 where
  pub graph : Option G
  pub published : Option (Published R)

abbrev pub init : {G R : Type 0} → MemoryGraphStore G R
init = record { graph = none; published = none }

-- `expected is not None and (current is None or current.field != expected)`
abbrev pub differs :
    {A R : Type 0} ⦃q : Eq A⦄ → (Published R → A) → Option A → Option (Published R) → Bool
differs field none current = false
differs field (some expected) none = true
differs field (some expected) (some p) = not (field p == expected)

abbrev pub next_generation : {R : Type 0} → Option (Published R) → ℕ
next_generation none = 1
next_generation (some p) = suc p.generation

module _ {G R : Type 0} ⦃q : Eq R⦄ (revision_of : G → R) where
  unfoldable pub save :
      (now : ℕ)
      → G
      → (expected_revision : Option R) → (expected_generation : Option ℕ) → MemoryGraphStore G R
      → Outcome (Published R) × MemoryGraphStore G R
  save now graph expected_revision expected_generation store =
      if differs (λ p. p.revision) expected_revision store.published
      then (err revision_conflict, store)
      else if differs (λ p. p.generation) expected_generation store.published
      then (err revision_conflict, store)
      else let published : Published R = record {
        revision = revision_of graph;
        generation = next_generation store.published;
        generated_at = now;
      } in
        (ok published, record { graph = some graph; published = some published })

  abbrev pub load : MemoryGraphStore G R → Option G
  load store = store.graph
