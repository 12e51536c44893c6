-- ===== src/Execution/Coordinator.antt =====
-- runtime/coordinator.py: `ExecutionCoordinator.plan` extracts the entries of a payload, looks for
-- a path plan in the plan cache before it asks the finder, and builds the execution plan. The
-- client's extractor is a function, and `find` stands for `PathFinder.find` on the frozen graph.
use pyverge.Prelude.{
  ℕ, ◌≡◌, refl, sym, subst, ap, ◌∙◌, ◌⊎◌, Option, none, some, List, [], ◌∷◌, map, ◌==◌, Bool-cases,
  Option-cases, inl, inr, some_inj,
}
use pyverge.Prelude.Int.{ℤ}
use pyverge.Prelude.Text.{Text}
use pyverge.Prelude.Dict.{get}
use pyverge.Prelude.Members.{Mem}
use pyverge.Errors.{Outcome, ok, err, ◌>>=◌}
use pyverge.Identity.{NodeEntry}
use pyverge.Planning.{Step}
use pyverge.Planning.Finder.{ExtractedEntry}
use pyverge.Prelude.Linear.{Linear}
use pyverge.Execution.Bindings.{MigrationBindings}
use pyverge.Execution.Planner.{PathPlan, ExecutionPlan, build}
use pyverge.PlanCache.{PlanCache, init, lookup, put, is_disabled}
use pyverge.PlanCache.Keys.{Target, Formats, PlanKey, eq_plan_key, from_entries}
use pyverge.PlanCache.Coherence.{Call, get_call, put_call, step, run, last_put, run-IsCache}

-- The arguments of `plan`; a source model is a class, by its module and its name.
pub record Request (D : Type 0) : Type 0 where
  pub payload : D
  pub target : Target
  pub source_model : Option (Text × Text)
  pub max_depth : ℕ

-- What the coordinator is made of, beside its cache: the extractor is the client's, the bindings are
-- the planner's.
pub record Parts (W V C R D : Type 0) : Type 0 where
  pub formats : Formats V
  pub extractor : D → Option (Text × Text) → ℕ → List (List Step × (ℕ × NodeEntry V))
  pub find : List (ExtractedEntry V) → Target → Option (Text × Text) → Outcome (PathPlan V)
  pub bindings : MigrationBindings W V C R

module _ {W V C R D : Type 0} ⦃o : Linear V⦄ (parts : Parts W V C R D) where
  unfoldable pub extract : Request D → List (ExtractedEntry V)
  extract r =
      map (λ found. record { path = found.0; node = found.1.1 })
        (parts.extractor r.payload r.source_model r.max_depth)

  unfoldable pub key_of : Request D → Option PlanKey
  unfolding extract from_entries
  key_of r = from_entries parts.formats r.target r.source_model (extract r)

  -- The finder's answer to a request.
  unfoldable pub found : Request D → Outcome (PathPlan V)
  unfolding extract
  found r = parts.find (extract r) r.target r.source_model

  abbrev stored :
      PlanKey
      → Outcome (PathPlan V)
      → PlanCache PlanKey (PathPlan V)
      → Outcome (PathPlan V) × PlanCache PlanKey (PathPlan V)
  stored key (ok plan) cache = (ok plan, put key plan cache)
  stored key (err f) cache = (err f, cache)

  -- `if path_plan is None: path_plan = self.finder.find(...); self.cache.put(key, path_plan)`
  abbrev or_find :
      Request D
      → PlanKey
      → Option (PathPlan V) × PlanCache PlanKey (PathPlan V)
      → Outcome (PathPlan V) × PlanCache PlanKey (PathPlan V)
  or_find r key (none, cache) = stored key (found r) cache
  or_find r key (some plan, cache) = (ok plan, cache)

  abbrev with_key :
      Request D
      → Option PlanKey
      → PlanCache PlanKey (PathPlan V)
      → Outcome (PathPlan V) × PlanCache PlanKey (PathPlan V)
  with_key r none cache = (found r, cache)
  with_key r (some key) cache = or_find r key (lookup key cache)

  abbrev pub built : Request D → Outcome (PathPlan V) → Outcome (ExecutionPlan W V C D)
  built r path_plan = path_plan >>= λ plan. build parts.bindings plan r.payload

  unfoldable pub plan :
      Request D
      → PlanCache PlanKey (PathPlan V)
      → Outcome (ExecutionPlan W V C D) × PlanCache PlanKey (PathPlan V)
  unfolding key_of found
  plan r cache =
      let (path_plan, cache') = with_key r (key_of r) cache in (built r path_plan, cache')

  -- One request after another.
  unfoldable pub plans :
      List (Request D)
      → PlanCache PlanKey (PathPlan V)
      → List (Outcome (ExecutionPlan W V C D)) × PlanCache PlanKey (PathPlan V)
  unfolding plan
  plans [] cache = ([], cache)
  plans (r ∷ rs) cache =
      let (answer, cache') = plan r cache in
      let (answers, last) = plans rs cache' in (answer ∷ answers, last)

  -- A request that may answer another: it is the same one, or one before it that has its key.
  abbrev pub StandsFor : List (Request D) → Request D → Request D → Type 0
  StandsFor before r q =
      (q ≡ r) ⊎ (Mem q before × ((k : PlanKey) × (key_of q ≡ some k) × (key_of r ≡ some k)))

  -- Each answer is what the finder says of a request that stands for the request, built for the
  -- request's own payload; `before` are the requests so far, the last one first.
  abbrev pub AreAnswers :
      List (Request D) → List (Request D) → List (Outcome (ExecutionPlan W V C D)) → Type 0
  AreAnswers before [] [] = Unit
  AreAnswers before [] (a ∷ answers) = ⊥
  AreAnswers before (r ∷ rs) [] = ⊥
  AreAnswers before (r ∷ rs) (a ∷ answers) =
      ((q : Request D) × StandsFor before r q × (a ≡ built r (found q)))
      × AreAnswers (r ∷ before) rs answers

  -- The plan of each call was found for a request so far, under its key.
  abbrev AllFound : List (Request D) → List (Call PlanKey (PathPlan V)) → Type 0
  AllFound before [] = Unit
  AllFound before (put_call k p ∷ calls) =
      ((q : Request D) × Mem q before × (key_of q ≡ some k) × (found q ≡ ok p))
      × AllFound before calls
  AllFound before (call ∷ calls) = AllFound before calls

  AllFound-more :
      (r : Request D) (before : List (Request D)) (calls : List (Call PlanKey (PathPlan V)))
      → AllFound before calls
      → AllFound (r ∷ before) calls
  AllFound-more r before [] h = tt
  AllFound-more r before (put_call k p ∷ calls) ((q, m, e, f), h) =
      ((q, inr m, e, f), AllFound-more r before calls h)
  AllFound-more r before (get_call k ∷ calls) h = AllFound-more r before calls h
  AllFound-more r before (Call.clear_call ∷ calls) h = AllFound-more r before calls h

  found_last :
      (k : PlanKey) (p : PathPlan V) (before : List (Request D))
      (calls : List (Call PlanKey (PathPlan V)))
      → AllFound before calls
      → last_put k calls ≡ some p
      → (q : Request D) × Mem q before × (key_of q ≡ some k) × (found q ≡ ok p)
  unfolding last_put
  found_last k p before [] h l = cc
  found_last k p before (get_call j ∷ calls) h l = found_last k p before calls h l
  found_last k p before (put_call j p' ∷ calls) h l = elim (Bool-cases (j == k)) [
    | inl same ↦
        let jk : j ≡ k = (eq_plan_key.same_iff j k).0 same in
        let pp : p' ≡ p = some_inj (rw same at l) in
        let (q, m, e, f) = h.0 in (q, m, e ∙ ap some jk, f ∙ ap ok pp)
    | inr other ↦ found_last k p before calls h.1 (rw other at l)
  ]
  found_last k p before (Call.clear_call ∷ calls) h l = cc

  -- The cache is what some calls made of a new one, each put for a request so far.
  record IsReached (size : ℤ) (first : PlanCache PlanKey (PathPlan V)) (before : List (Request D))
      (cache : PlanCache PlanKey (PathPlan V)) : Type 0 where
    calls : List (Call PlanKey (PathPlan V))
    made : init size ≡ some first
    ran : run first calls ≡ cache
    puts : AllFound before calls

  get_of_lookup :
      (k : PlanKey) (c : PlanCache PlanKey (PathPlan V)) (p : PathPlan V)
      → (lookup k c).0 ≡ some p
      → get k c.entries ≡ some p
  unfolding lookup
  get_of_lookup k c p h = elim (Bool-cases (is_disabled c.size)) [
    | inl off ↦ absurd (let d = rw off at h in cc)
    | inr on ↦ rw on at h
  ]

  module _ (size : ℤ) (first : PlanCache PlanKey (PathPlan V)) where
    -- A plan that the cache holds was found for a request of its key.
    hit_lem :
        (before : List (Request D)) (cache : PlanCache PlanKey (PathPlan V)) (k : PlanKey)
        (p : PathPlan V)
        → IsReached size first before cache
        → (lookup k cache).0 ≡ some p
        → (q : Request D) × Mem q before × (key_of q ≡ some k) × (found q ≡ ok p)
    hit_lem before cache k p r h =
        let c = run-IsCache size first r.calls r.made in
        let held : get k (run first r.calls).entries ≡ some p =
          subst (λ (x : PlanCache PlanKey (PathPlan V)). get k x.entries ≡ some p) (sym r.ran)
            (get_of_lookup k cache p h) in
        found_last k p before r.calls r.puts (c.kept k p held)

    looked_up :
        (before : List (Request D)) (cache : PlanCache PlanKey (PathPlan V)) (k : PlanKey)
        → IsReached size first before cache
        → IsReached size first before (lookup k cache).1
    unfolding run lookup step
    looked_up before cache k r = record {
      calls = get_call k ∷ r.calls;
      made = r.made;
      ran = ap (λ x. (lookup k x).1) r.ran;
      puts = r.puts;
    }

    later :
        (r : Request D) (before : List (Request D)) (cache : PlanCache PlanKey (PathPlan V))
        → IsReached size first before cache
        → IsReached size first (r ∷ before) cache
    later r before cache i = record {
      calls = i.calls;
      made = i.made;
      ran = i.ran;
      puts = AllFound-more r before i.calls i.puts;
    }

    -- What one request comes to.
    abbrev IsAnswered :
        Request D
        → List (Request D)
        → Outcome (PathPlan V) × PlanCache PlanKey (PathPlan V)
        → Type 0
    IsAnswered r before x =
        ((q : Request D) × StandsFor before r q × (x.0 ≡ found q))
        × IsReached size first (r ∷ before) x.1

    stored_lem :
        (k : PlanKey) (r : Request D) (before : List (Request D))
        (cache : PlanCache PlanKey (PathPlan V)) (x : Outcome (PathPlan V))
        → found r ≡ x
        → key_of r ≡ some k
        → IsReached size first before cache
        → IsAnswered r before (stored k x cache)
    unfolding run put step
    stored_lem k r before cache (err f) e m i = ((r, inl refl, sym e), later r before cache i)
    stored_lem k r before cache (ok p) e m i = (
      (r, inl refl, sym e),
      record {
        calls = put_call k p ∷ i.calls;
        made = i.made;
        ran = ap (put k p) i.ran;
        puts = ((r, inl refl, m, e), AllFound-more r before i.calls i.puts);
      },
    )

    key_lem :
        (r : Request D) (before : List (Request D)) (cache : PlanCache PlanKey (PathPlan V))
        → IsReached size first before cache
        → IsAnswered r before (with_key r (key_of r) cache)
    key_lem r before cache i = elim (Option-cases (key_of r)) [
      | inl keyless ↦
          subst (λ x. IsAnswered r before (with_key r x cache)) (sym keyless)
            ((r, inl refl, refl), later r before cache i)
      | inr (k, m) ↦
          subst (λ x. IsAnswered r before (with_key r x cache)) (sym m)
            (found_or (lookup k cache) k m (λ p h. hit_lem before cache k p i h)
              (looked_up before cache k i))
    ]
      where
        found_or :
            (x : Option (PathPlan V) × PlanCache PlanKey (PathPlan V)) (k : PlanKey)
            → key_of r ≡ some k
            → ((p : PathPlan V)
                → x.0 ≡ some p
                → (q : Request D) × Mem q before × (key_of q ≡ some k) × (found q ≡ ok p))
            → IsReached size first before x.1
            → IsAnswered r before (or_find r k x)
        found_or (none, c) k m f i = stored_lem k r before c (found r) refl m i
        found_or (some p, c) k m f i =
            let (q, there, e, g) = f p refl in
            ((q, inr (there, (k, e, m)), sym g), later r before c i)

    plans_lem :
        (rs before : List (Request D)) (cache : PlanCache PlanKey (PathPlan V))
        → IsReached size first before cache
        → AreAnswers before rs (plans rs cache).0
    unfolding plans plan
    plans_lem [] before cache i = tt
    plans_lem (r ∷ rs) before cache i =
        let ((q, stands, same), i') = key_lem r before cache i in
        (
          (q, stands, ap (built r) same),
          plans_lem rs (r ∷ before) (with_key r (key_of r) cache).1 i',
        )

    pub plans-AreAnswers :
        (rs : List (Request D)) → init size ≡ some first → AreAnswers [] rs (plans rs first).0
    unfolding run
    plans-AreAnswers rs made =
        plans_lem rs [] first (record { calls = []; made = made; ran = refl; puts = tt })
