-- ===== src/Execution/Total.antt =====
-- A plan's levels, executed bottom-up, find every entry's place in the payload.
use pyverge.Prelude.{◌≡◌, refl, subst, ◌∙◌, true, List, [], ◌∷◌, All, All-map, inl}
use pyverge.Prelude.Effects.{ok, Action}
use pyverge.Errors
use pyverge.Errors.{Outcome, bind_inv}
use pyverge.Planning.{Step, PlanEntry, levels, flat}
use pyverge.Planning.Ready.{AreObjects}
use pyverge.Planning.Levels.{IsBottomUp, levels-IsBottomUp, levels-All}
use pyverge.Payload.{Value, subscript}
use pyverge.Payload
use pyverge.Payload.Places.{diverge}
use pyverge.Execution.{EntryResult, replace_at, apply_results}
use pyverge.Execution.Results.{IsPlace}
use pyverge.Execution.Applied.{AreApart, ArePlaces, apply_results_total}
use pyverge.Execution.Backends.{lifted, run_level, run_levels}
use pyverge.Execution.Passes.{Passes, IsPlace-Passes, path_eq}
use pyverge.Execution.Layout.{
  get-find, AreDistinct, Distinct, Distinct-of, Diverging, AllPass, level_lem, All-left, All-right,
}

-- `execute_entry` returns, in every world, a result at the entry's own path.
abbrev pub Returns : {W E : Type 0} → (PlanEntry E → Value → Action W EntryResult) → Type 0
Returns {W} {E} execute_entry =
    (e : PlanEntry E) (v : Value) (w : W)
    → (x : Value) × ((execute_entry e v w).0 ≡ ok (record { path = e.path; value = x }))

module _ {W E : Type 0} (execute_entry : PlanEntry E → Value → Action W EntryResult)
    (returns : Returns execute_entry) where
  -- The results are those of the entries, in their order.
  abbrev Of : List (PlanEntry E) → List EntryResult → Type 0
  Of [] [] = Unit
  Of [] (r ∷ rs) = ⊥
  Of (a ∷ l) [] = ⊥
  Of (a ∷ l) (r ∷ rs) = (a.path ≡ r.path) × Of l rs

  run_level_lem :
      (v : Value) (l : List (PlanEntry E)) (w : W)
      → All (λ a. IsPlace v a.path) l
      → (rs : List EntryResult) × ((run_level (λ e. e.path) execute_entry v l w).0 ≡ ok rs)
        × Of l rs
  unfolding run_level
  run_level_lem v [] w h = ([], refl, tt)
  run_level_lem v (a ∷ l) w h =
      let (x, found) = h.0 in
      let (y, done) = returns a x w in
      let (rs, rest, of) = run_level_lem v l (execute_entry a x w).1 h.1 in
      (
        record { path = a.path; value = y } ∷ rs,
        rw (get-find a.path v found) (rw (lifted, done) (rw rest refl)),
        (refl, of),
      )

  Of-All :
      (Q : List Step → Type 0) (l : List (PlanEntry E)) (rs : List EntryResult)
      → Of l rs
      → All (λ a. Q a.path) l
      → All (λ r. Q r.path) rs
  Of-All Q [] [] o h = tt
  Of-All Q [] (r ∷ rs) o h = absurd o
  Of-All Q (a ∷ l) [] o h = absurd o
  Of-All Q (a ∷ l) (r ∷ rs) o h = (subst Q o.0 h.0, Of-All Q l rs o.1 h.1)

  AreApart-Of :
      (l : List (PlanEntry E)) (rs : List EntryResult) → Of l rs → Diverging l → AreApart rs
  AreApart-Of [] [] o d = tt
  AreApart-Of [] (r ∷ rs) o d = absurd o
  AreApart-Of (a ∷ l) [] o d = absurd o
  AreApart-Of (a ∷ l) (r ∷ rs) o d = (
    subst (λ p. All (λ x. diverge p x.path ≡ true) rs) o.0
        (Of-All (λ q. diverge a.path q ≡ true) l rs o.1 d.0),
    AreApart-Of l rs o.1 d.1,
  )

  still_places :
      (v u : Value) (rs : List EntryResult) (q : List Step)
      → AreApart rs
      → ArePlaces v rs
      → All (λ r. Passes r.path q) rs
      → apply_results v rs ≡ Errors.ok u
      → IsPlace v q
      → IsPlace u q
  unfolding apply_results
  still_places v u [] q d h p e i = subst (λ x. IsPlace x q) (Errors.ok_inj e) i
  still_places v u (r ∷ rs) q d h p e i =
      let (w, done, rest) = bind_inv (replace_at v r.path r.value) _ e in
      still_places w u rs q d.1 (moved w rs done d.0 h.1) p.1 rest
        (IsPlace-Passes r.value r.path q v w p.0 done i)
    where
      moved :
          (w : Value) (xs : List EntryResult)
          → replace_at v r.path r.value ≡ Errors.ok w
          → All (λ x. diverge r.path x.path ≡ true) xs
          → ArePlaces v xs
          → ArePlaces w xs
      moved w [] done d h = tt
      moved w (x ∷ xs) done d h =
          (IsPlace-Passes r.value r.path x.path v w (inl d.0) done h.0, moved w xs done d.1 h.1)

  abbrev PathsKept : Value → Value → List (PlanEntry E) → Type 0
  PathsKept v u entries =
      (q : List Step)
      → All (λ e. diverge e.path q ≡ true) entries
      → Payload.get q u ≡ Payload.get q v

  run_levels_lem :
      (ls : List (List (PlanEntry E))) (v : Value) (w : W)
      → IsBottomUp ls
      → Distinct (flat ls)
      → All (λ e. IsPlace v e.path) (flat ls)
      → (u : Value) × ((run_levels (λ e. e.path) execute_entry v ls w).0 ≡ ok u)
        × PathsKept v u (flat ls)
  unfolding run_levels
  run_levels_lem [] v w b d h = (v, refl, λ q e. refl)
  run_levels_lem (l ∷ ls) v w b d h =
      let (inside, pass, later) = level_lem l (flat ls) b.0 d in
      let (rs, ran, of) = run_level_lem v l w (All-left (λ e. IsPlace v e.path) l (flat ls) h) in
      let apart = AreApart-Of l rs of inside in
      let places =
        Of-All (λ p. IsPlace v p) l rs of (All-left (λ e. IsPlace v e.path) l (flat ls) h) in
      let (u, applied, held) = apply_results_total v rs apart places in
      let (x, done, kept) =
        run_levels_lem ls u (run_level (λ e. e.path) execute_entry v l w).1 b.1 later (
          on_places v u rs (flat ls) apart places (λ q p. Of-All (λ a. Passes a q) l rs of p)
            applied (turned l (flat ls) pass) (All-right (λ e. IsPlace v e.path) l (flat ls) h)) in
      (
        x,
        rw ran (rw (lifted, applied) done),
        λ q e.
            kept q (All-right (λ a. diverge a.path q ≡ true) l (flat ls) e)
            ∙ held.kept q (
                Of-All (λ p. diverge p q ≡ true) l rs of
                  (All-left (λ a. diverge a.path q ≡ true) l (flat ls) e)),
      )
    where
      -- For each later entry, the level's entries pass it.
      turned :
          (l r : List (PlanEntry E)) → AllPass l r → All (λ b. All (λ a. Passes a.path b.path) l) r
      turned l [] h = tt
      turned l (b ∷ r) h = (All-map (λ a x. x.0) l h, turned l r (All-map (λ a x. x.1) l h))

      on_places :
          (v u : Value) (rs : List EntryResult) (r : List (PlanEntry E))
          → AreApart rs
          → ArePlaces v rs
          → ((q : List Step) → All (λ a. Passes a.path q) l → All (λ x. Passes x.path q) rs)
          → apply_results v rs ≡ Errors.ok u
          → All (λ b. All (λ a. Passes a.path b.path) l) r
          → All (λ b. IsPlace v b.path) r
          → All (λ b. IsPlace u b.path) r
      on_places v u rs [] d h of e p i = tt
      on_places v u rs (b ∷ r) d h of e p i = (
        still_places v u rs b.path d h (of b.path p.0) e i.0,
        on_places v u rs r d h of e p.1 i.1,
      )

  -- A plan whose entries lead to different places of the payload, executed level by level with an
  -- `execute_entry` that returns, raises nothing: each entry finds a value at its path when its
  -- turn comes, also after the results of the levels before have been applied, and every path
  -- that diverges from all entries reads in the new payload as in the old one.
  pub run_levels_total :
      (entries : List (PlanEntry E)) (v : Value) (w : W)
      → AreObjects entries
      → AreDistinct entries
      → All (λ e. IsPlace v e.path) entries
      → (u : Value) × ((run_levels (λ e. e.path) execute_entry v (levels entries) w).0 ≡ ok u)
        × ((q : List Step)
            → All (λ e. diverge e.path q ≡ true) entries
            → Payload.get q u ≡ Payload.get q v)
  run_levels_total entries v w objects distinct places =
      let (counted, bottom_up) = levels-IsBottomUp entries objects in
      let once : AreDistinct (flat (levels entries)) =
        λ q. rw (counted (λ e. path_eq e.path q)) (distinct q) in
      let (u, done, kept) =
        run_levels_lem (levels entries) v w bottom_up (Distinct-of (flat (levels entries)) once)
          (levels-All (λ e. IsPlace v e.path) entries places) in
      (u, done, λ q e. kept q (levels-All (λ a. diverge a.path q ≡ true) entries e))
