-- ===== src/GraphStore/Generations.antt =====
-- What `MemoryGraphStore.save` does to the store, and what many saves in a row leave in it.
use pyverge.Prelude.{
  ℕ, suc, ◌+◌, ◌≡◌, refl, sym, subst, ◌∙◌, ap, false, Option, none, some, List, [], ◌∷◌, eq_nat,
  ◌⊎◌, Eq, Bool-cases, inl, inr, arith,
}
use pyverge.Errors.{Outcome, ok, err, revision_conflict}
use pyverge.GraphStore.{Published, MemoryGraphStore, init, differs, next_generation, save}

module _ {G R : Type 0} ⦃q : Eq R⦄ (revision_of : G → R) where
  -- One call of `save`.
  pub record Save : Type 0 where
    pub now : ℕ
    pub graph : G
    pub expected_revision : Option R
    pub expected_generation : Option ℕ

  abbrev pub run_save : Save → MemoryGraphStore G R → Outcome (Published R) × MemoryGraphStore G R
  run_save c store = save revision_of c.now c.graph c.expected_revision c.expected_generation store

  -- The store after some calls, and how many of them succeeded.
  unfoldable pub run : List Save → MemoryGraphStore G R → MemoryGraphStore G R
  run [] store = store
  run (c ∷ cs) store = run cs (run_save c store).1

  abbrev succeeded : {A : Type 0} → Outcome A → ℕ
  succeeded (ok a) = 1
  succeeded (err f) = 0

  unfoldable pub successes : List Save → MemoryGraphStore G R → ℕ
  successes [] store = 0
  successes (c ∷ cs) store = succeeded (run_save c store).0 + successes cs (run_save c store).1

  abbrev pub generation : MemoryGraphStore G R → ℕ
  generation store = elim store.published [ none ↦ 0 | some p ↦ p.generation ]

  -- The graph of the store is the one whose revision it has published.
  abbrev pub IsPaired : Option G → Option (Published R) → Type 0
  IsPaired none none = Unit
  IsPaired none (some p) = ⊥
  IsPaired (some g) none = ⊥
  IsPaired (some g) (some p) = p.revision ≡ revision_of g

  -- What a successful call did: its expectations were met, and the store holds the graph under
  -- the next generation.
  pub record IsSaved (c : Save) (store : MemoryGraphStore G R) (p : Published R) : Type 0 where
    pub stored : (run_save c store).1 ≡ record { graph = some c.graph; published = some p }
    pub revision : p.revision ≡ revision_of c.graph
    pub generation : p.generation ≡ next_generation store.published
    pub generated_at : p.generated_at ≡ c.now
    pub revision_met : differs (λ p. p.revision) c.expected_revision store.published ≡ false
    pub generation_met : differs (λ p. p.generation) c.expected_generation store.published ≡ false

  -- A save either raises a conflict and leaves the store as it was, or it publishes the graph
  -- under the next generation, its expectations met.
  pub save_cases :
      (c : Save) (store : MemoryGraphStore G R)
      → (((run_save c store).0 ≡ err revision_conflict) × ((run_save c store).1 ≡ store))
        ⊎ ((p : Published R) × ((run_save c store).0 ≡ ok p) × IsSaved c store p)
  unfolding save
  save_cases c store =
      elim (Bool-cases (differs (λ p. p.revision) c.expected_revision store.published)) [
        | inl other ↦ inl (rw other (refl, refl))
        | inr met ↦
            elim (Bool-cases (differs (λ p. p.generation) c.expected_generation store.published)) [
              | inl stale ↦ inl (rw (met, stale) (refl, refl))
              | inr fresh ↦ inr (
                record {
                  revision = revision_of c.graph;
                  generation = next_generation store.published;
                  generated_at = c.now;
                },
                rw (met, fresh) refl,
                record {
                  stored = rw (met, fresh) refl;
                  revision = refl;
                  generation = refl;
                  generated_at = refl;
                  revision_met = met;
                  generation_met = fresh;
                },
              )
            ]
      ]

  -- Of two saves that expect the same published generation, the second one conflicts if the first
  -- succeeds: no publication overwrites one that it has not seen.
  pub save-once :
      (c c' : Save) (store : MemoryGraphStore G R) (p before : Published R)
      → store.published ≡ some before
      → c'.expected_generation ≡ some before.generation
      → (run_save c store).0 ≡ ok p
      → (run_save c' (run_save c store).1).0 ≡ err revision_conflict
  unfolding save
  save-once c c' store p before was expects h = elim (save_cases c store) [
    | inl (failed, kept) ↦ absurd (cc)
    | inr (saved, won, s) ↦
        let e = s.generation in
        let e' : saved.generation ≡ suc before.generation = rw was at e in
        rw (s.stored, expects, e') (ground arith)
  ]

  next_generation_lem :
      (before : Option (Published R)) (m n : ℕ)
      → m ≡ next_generation before
      → n + m ≡ (1 + n) + (elim before [ none ↦ 0 | some p ↦ p.generation ])
  next_generation_lem none m n h = omega arith
  next_generation_lem (some p) m n h = omega arith

  run_generation :
      (cs : List Save) (store : MemoryGraphStore G R)
      → generation (run cs store) ≡ successes cs store + generation store
  unfolding run successes
  run_generation [] store = omega arith
  run_generation (c ∷ cs) store = elim (save_cases c store) [
    | inl (failed, kept) ↦ rw (failed, kept) (let e = run_generation cs store in omega arith)
    | inr (p, won, s) ↦
        let after : MemoryGraphStore G R = record { graph = some c.graph; published = some p } in
        let e : generation (run cs (run_save c store).1)
            ≡ successes cs (run_save c store).1 + generation after =
          subst (λ s. generation (run cs s) ≡ successes cs s + generation after) (sym s.stored)
            (run_generation cs after) in
        e
        ∙ next_generation_lem store.published p.generation (successes cs (run_save c store).1)
            s.generation
        ∙ ap (λ r. (succeeded r + successes cs (run_save c store).1) + generation store) (sym won)
  ]

  run-IsPaired :
      (cs : List Save) (store : MemoryGraphStore G R)
      → IsPaired store.graph store.published
      → IsPaired (run cs store).graph (run cs store).published
  unfolding run
  run-IsPaired [] store h = h
  run-IsPaired (c ∷ cs) store h = elim (save_cases c store) [
    | inl (failed, kept) ↦
        subst (λ s. IsPaired (run cs s).graph (run cs s).published) (sym kept)
          (run-IsPaired cs store h)
    | inr (p, won, s) ↦
        subst (λ s. IsPaired (run cs s).graph (run cs s).published) (sym s.stored)
          (run-IsPaired cs (record { graph = some c.graph; published = some p }) s.revision)
  ]

  -- From an empty store, after any calls of save, the generation is the number of the calls that
  -- succeeded, and the stored graph is the one whose revision is published.
  pub run_lem :
      (cs : List Save)
      → (generation (run cs init) ≡ successes cs init)
        × IsPaired (run cs init).graph (run cs init).published
  run_lem cs = let e = run_generation cs init in (omega arith, run-IsPaired cs init tt)
