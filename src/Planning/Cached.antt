-- ===== src/Planning/Cached.antt =====
-- The cache of the path finder changes no plan.
use pyverge.Prelude.{
  ◌≡◌, refl, sym, ◌∙◌, ap, subst, Option, none, some, some_inj, List, [], ◌∷◌, ◌==◌, Bool-cases,
  inl, inr, if◌then◌else◌,
}
use pyverge.Prelude.Text.{Text}
use pyverge.Prelude.Dict.{get, set_item, get-set_item}
use pyverge.Prelude.Linear.{Linear}
use pyverge.Errors.{Outcome, ok, err, ◌>>=◌}
use pyverge.Identity.{NodeId, NodeEntry}
use pyverge.Backend.{eq_pair}
use pyverge.Graph.{MigrationGraph}
use pyverge.Planning.Finder.{
  ExtractedEntry, ResolvedPath, FoundEntry, Cache, found_entry, walked, remember, resolve_path,
  then_entry, resolve, then_rest, go_on, plan,
}

module _ {V : Type 0} ⦃o : Linear V⦄ (graph : MigrationGraph V) (discriminator : Text) where
  -- Each cached path is the one that the graph gives.
  pub record IsCoherent (cache : Cache V) : Type 0 where
    pub paths :
        (s t : NodeId V) (p : ResolvedPath V)
        → get (s, t) cache ≡ some p
        → walked graph discriminator s t ≡ ok p

  -- A lookup gives what the graph gives, and leaves the cache coherent.
  record IsResolved (s t : NodeId V) (r : Outcome (ResolvedPath V) × Cache V) : Type 0 where
    result : r.0 ≡ walked graph discriminator s t
    coherent : IsCoherent r.1

  remembered :
      (k k' : NodeId V × NodeId V) (p p' : ResolvedPath V) (cache : Cache V)
      → walked graph discriminator k.0 k.1 ≡ ok p
      → (get k' cache ≡ some p' → walked graph discriminator k'.0 k'.1 ≡ ok p')
      → get k' (set_item k p cache) ≡ some p'
      → walked graph discriminator k'.0 k'.1 ≡ ok p'
  remembered k k' p p' cache h old found =
      let e : (if k == k' then some p else get k' cache) ≡ some p' =
        sym (get-set_item k k' p cache) ∙ found in
      elim (Bool-cases (k == k')) [
        | inl here ↦
            let same : k ≡ k' = (eq_pair.same_iff k k').0 here in
            ap (λ (k : NodeId V × NodeId V). walked graph discriminator k.0 k.1) (sym same)
            ∙ h
            ∙ ap ok (some_inj (rw here at e))
        | inr other ↦ old (rw other at e)
      ]

  remember-IsResolved :
      (s t : NodeId V) (cache : Cache V) (path : Outcome (ResolvedPath V))
      → path ≡ walked graph discriminator s t
      → IsCoherent cache
      → IsResolved s t (remember graph discriminator (s, t) path cache)
  remember-IsResolved s t cache (err f) h c = record { result = h; coherent = c }
  remember-IsResolved s t cache (ok p) h c = record {
    result = h;
    coherent = record {
      paths =
          λ s' t' p' found. remembered (s, t) (s', t') p p' cache (sym h) (c.paths s' t' p') found;
    };
  }

  resolve_path-IsResolved :
      (s t : NodeId V) (cache : Cache V)
      → IsCoherent cache
      → IsResolved s t (resolve_path graph discriminator s t cache)
  unfolding resolve_path
  resolve_path-IsResolved s t cache c = go (get (s, t) cache) (λ p h. c.paths s t p h)
    where
      go :
          (found : Option (ResolvedPath V))
          → ((p : ResolvedPath V) → found ≡ some p → walked graph discriminator s t ≡ ok p)
          → IsResolved s t (elim found [
            | none ↦ remember graph discriminator (s, t) (walked graph discriminator s t) cache
            | some p ↦ (ok p, cache)
          ])
      go none h = remember-IsResolved s t cache (walked graph discriminator s t) refl c
      go (some p) h = record { result = sym (h p refl); coherent = c }

  module _ (target_resolver : NodeEntry V → Outcome (Option (NodeEntry V))) where
    -- The plan without a cache.
    unfoldable pub plan_directly : List (ExtractedEntry V) → Outcome (List (FoundEntry V))
    plan_directly [] = ok []
    plan_directly (entry ∷ entries) =
        let later = plan_directly entries in
        target_resolver entry.node >>= λ target. elim target [
          | none ↦ later
          | some target ↦ walked graph discriminator entry.node.id target.id >>= λ path.
              found_entry entry target path >>= λ found. later >>= λ rest. ok (found ∷ rest)
        ]

    -- What a planned list gives.
    record IsPlanned (direct : Outcome (List (FoundEntry V)))
        (r : Outcome (List (FoundEntry V)) × Cache V) : Type 0 where
      planned : r.0 ≡ direct
      left : IsCoherent r.1

    then_rest-IsPlanned :
        (found : FoundEntry V) (direct : Outcome (List (FoundEntry V)))
        (r : Outcome (List (FoundEntry V)) × Cache V)
        → IsPlanned direct r
        → IsPlanned
            (direct >>= λ rest. ok (found ∷ rest))
            (then_rest graph discriminator target_resolver found r)
    then_rest-IsPlanned found direct (ok rest, cache) p = record {
      planned = ap (λ d. d >>= λ rest. ok (found ∷ rest)) p.planned;
      left = p.left;
    }
    then_rest-IsPlanned found direct (err f, cache) p = record {
      planned = ap (λ d. d >>= λ rest. ok (found ∷ rest)) p.planned;
      left = p.left;
    }

    entry-IsPlanned :
        (found : Outcome (FoundEntry V)) (direct : Outcome (List (FoundEntry V))) (cache : Cache V)
        (rest : Cache V → Outcome (List (FoundEntry V)) × Cache V)
        → IsCoherent cache
        → ((cache : Cache V) → IsCoherent cache → IsPlanned direct (rest cache))
        → IsPlanned
            (found >>= λ found. direct >>= λ rest. ok (found ∷ rest))
            (go_on graph discriminator target_resolver (found, cache) rest)
    entry-IsPlanned (ok found) direct cache rest c go =
        then_rest-IsPlanned found direct (rest cache) (go cache c)
    entry-IsPlanned (err f) direct cache rest c go = record { planned = refl; left = c }

    go_on-IsPlanned :
        (entry : ExtractedEntry V) (target : NodeEntry V) (direct : Outcome (List (FoundEntry V)))
        (r : Outcome (ResolvedPath V) × Cache V)
        (rest : Cache V → Outcome (List (FoundEntry V)) × Cache V)
        → IsResolved entry.node.id target.id r
        → ((cache : Cache V) → IsCoherent cache → IsPlanned direct (rest cache))
        → IsPlanned
            (walked graph discriminator entry.node.id target.id >>= λ path.
              found_entry entry target path >>= λ found. direct >>= λ rest. ok (found ∷ rest))
            (go_on graph discriminator target_resolver
              (then_entry graph discriminator entry target r)
              rest)
    go_on-IsPlanned entry target direct (ok path, cache) rest r go =
        subst
          (λ w.
            IsPlanned
              (w >>= λ path.
                found_entry entry target path >>= λ found. direct >>= λ rest. ok (found ∷ rest))
              (go_on graph discriminator target_resolver (found_entry entry target path, cache)
                rest))
          r.result (entry-IsPlanned (found_entry entry target path) direct cache rest r.coherent go)
    go_on-IsPlanned entry target direct (err f, cache) rest r go = record {
      planned =
          ap
            (λ w. w >>= λ path.
              found_entry entry target path >>= λ found. direct >>= λ rest. ok (found ∷ rest))
            r.result;
      left = r.coherent;
    }

    plan-IsPlanned :
        (entries : List (ExtractedEntry V)) (cache : Cache V)
        → IsCoherent cache
        → IsPlanned (plan_directly entries) (plan graph discriminator target_resolver entries cache)
    unfolding plan plan_directly resolve
    plan-IsPlanned [] cache c = record { planned = refl; left = c }
    plan-IsPlanned (entry ∷ entries) cache c =
        go (plan-IsPlanned entries) (target_resolver entry.node)
      where
        some_target :
            (later : (cache : Cache V)
              → IsCoherent cache
              → IsPlanned
                  (plan_directly entries)
                  (plan graph discriminator target_resolver entries cache))
            → (target : Option (NodeEntry V))
            → IsPlanned
                (elim target [
                  | none ↦ plan_directly entries
                  | some target ↦ walked graph discriminator entry.node.id target.id >>= λ path.
                      found_entry entry target path >>= λ found.
                      plan_directly entries >>= λ rest. ok (found ∷ rest)
                ])
                (elim target [
                  | none ↦ plan graph discriminator target_resolver entries cache
                  | some target ↦
                      go_on graph discriminator target_resolver
                        (resolve graph discriminator entry target cache)
                        (λ cache. plan graph discriminator target_resolver entries cache)
                ])
        some_target later none = later cache c
        some_target later (some target) =
            go_on-IsPlanned entry target (plan_directly entries)
              (resolve_path graph discriminator entry.node.id target.id cache)
              (λ cache. plan graph discriminator target_resolver entries cache)
              (resolve_path-IsResolved entry.node.id target.id cache c) later

        go :
            (later : (cache : Cache V)
              → IsCoherent cache
              → IsPlanned
                  (plan_directly entries)
                  (plan graph discriminator target_resolver entries cache))
            → (resolved : Outcome (Option (NodeEntry V)))
            → IsPlanned
                (resolved >>= λ target. elim target [
                  | none ↦ plan_directly entries
                  | some target ↦ walked graph discriminator entry.node.id target.id >>= λ path.
                      found_entry entry target path >>= λ found.
                      plan_directly entries >>= λ rest. ok (found ∷ rest)
                ])
                (elim resolved [
                  | err f ↦ (err f, cache)
                  | ok target ↦ elim target [
                    | none ↦ plan graph discriminator target_resolver entries cache
                    | some target ↦
                        go_on graph discriminator target_resolver
                          (resolve graph discriminator entry target cache)
                          (λ cache. plan graph discriminator target_resolver entries cache)
                  ]
                ])
        go later (err f) = record { planned = refl; left = c }
        go later (ok target) = some_target later target

    -- With a coherent cache the finder plans, or raises, exactly as it would without a cache, and
    -- leaves the cache coherent.
    pub plan-direct :
        (entries : List (ExtractedEntry V)) (cache : Cache V)
        → IsCoherent cache
        → ((plan graph discriminator target_resolver entries cache).0 ≡ plan_directly entries)
          × IsCoherent (plan graph discriminator target_resolver entries cache).1
    plan-direct entries cache c = let p = plan-IsPlanned entries cache c in (p.planned, p.left)
