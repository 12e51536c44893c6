-- ===== src/Planning/Aims.antt =====
-- What the compiled target policies aim at.
use pyverge.Prelude.{
  ◌≡◌, refl, ap, subst, ◌⊎◌, not, Option, none, some, some_inj, List, [], ◌∷◌, ◌==◌, Bool-cases,
  inl, inr, All, keep_if, keep_if-All,
}
use pyverge.Prelude.Text.{Text, codes, eq_text}
use pyverge.Prelude.Dict.{Dict, get}
use pyverge.Prelude.Linear.{Linear}
use pyverge.Errors.{Outcome, ok, bind_inv, ok_inj}
use pyverge.Identity.{NodeEntry, EdgeId}
use pyverge.Identity.Order.{linear_node, eq_node}
use pyverge.Backend.{BuildOptions}
use pyverge.Graph.{Revision}
use pyverge.Graph.Extremes.{built}
use pyverge.Planning.Targets.{
  TargetSpec, TargetPolicy, one, for_kinds, resolve_by, Resolver, chosen, multi_target_resolver,
  compile_spec, compile_all, compile,
}
use pyverge.Planning.Specs.{compile_spec-kind}

-- A resolver that aims at the kind of the entry only.
abbrev pub Aims : {V : Type 0} → Resolver V → Type 0
Aims resolver =
    (current t : NodeEntry _) → resolver current ≡ ok (some t) → t.id.kind ≡ current.id.kind

module _ {V : Type 0} where
  get-Aims :
      (k : Text) (rs : Dict Text (Resolver V)) (r : Resolver V)
      → All (λ p. Aims p.1) rs
      → get k rs ≡ some r
      → Aims r
  unfolding get
  get-Aims k [] r h e = cc
  get-Aims k ((j, q) ∷ rs) r h e = elim (Bool-cases (j == k)) [
    | inl here ↦ subst Aims (some_inj (rw here at e)) h.0
    | inr other ↦ get-Aims k rs r h.1 (rw other at e)
  ]

  chosen-Aims :
      (mine fallback : Option (Resolver V))
      → ((r : Resolver V) → mine ≡ some r → Aims r)
      → ((r : Resolver V) → fallback ≡ some r → Aims r)
      → Aims (chosen mine fallback)
  chosen-Aims (some r) fallback h k = h r refl
  chosen-Aims none (some r) h k = k r refl
  chosen-Aims none none h k = λ current t e. absurd (let bad = ok_inj e in cc)

  multi_target_resolver-Aims :
      (rs : Dict Text (Resolver V)) → All (λ p. Aims p.1) rs → Aims (multi_target_resolver rs)
  unfolding multi_target_resolver
  multi_target_resolver-Aims rs h current =
      chosen-Aims
        (get current.id.kind (keep_if (λ (r : Text × Resolver V). not (r.0 == codes "*")) rs))
        (get (codes "*") rs)
        (λ r e.
          get-Aims current.id.kind (keep_if (λ (r : Text × Resolver V). not (r.0 == codes "*")) rs)
            r (keep_if-All (λ (r : Text × Resolver V). not (r.0 == codes "*")) (λ p. Aims p.1) rs h)
            e)
        (λ r e. get-Aims (codes "*") rs r h e) current

module _ {V : Type 0} ⦃o : Linear V⦄ (parse : Text → Outcome V) (nodes : List (NodeEntry V))
    (edges : List (EdgeId V)) (options : BuildOptions V) (revision : Revision) (digest : Text) where
  compile_all-Aims :
      (specs : Dict Text (TargetSpec V)) (rs : Dict Text (Resolver V))
      → compile_all parse (built nodes edges options revision digest) specs ≡ ok rs
      → All (λ p. Aims p.1) rs
  unfolding compile_all
  compile_all-Aims [] rs h = subst (All (λ p. Aims p.1)) (ok_inj h) tt
  compile_all-Aims ((kind, spec) ∷ specs) rs h =
      let graph = built nodes edges options revision digest in
      let (r, compiled, h1) = bind_inv (compile_spec parse graph spec) _ h in
      let (rest, later, h2) = bind_inv (compile_all parse graph specs) _ h1 in
      subst (All (λ p. Aims p.1)) (ok_inj h2) (
        λ current t e.
            compile_spec-kind parse nodes edges options revision digest spec r current t compiled e,
        compile_all-Aims specs rest later,
      )

  -- Whatever policy is compiled against a graph that is locked around a built backend, for one
  -- target or for several kinds, the resolver aims at a version of the entry's own kind, if it aims
  -- at any; or the policy is a resolver of the client's, and that one is used as it is.
  pub compile-Aims :
      (policy : TargetPolicy V) (resolver : Resolver V)
      → compile parse (built nodes edges options revision digest) policy ≡ ok resolver
      → (policy ≡ resolve_by resolver) ⊎ Aims resolver
  unfolding compile
  compile-Aims (resolve_by r) resolver h = inl (ap resolve_by (ok_inj h))
  compile-Aims (one spec) resolver h = inr (λ current t e.
      compile_spec-kind parse nodes edges options revision digest spec resolver current t h e)
  compile-Aims (for_kinds specs) resolver h =
      let (rs, compiled, h1) =
        bind_inv (compile_all parse (built nodes edges options revision digest) specs) _ h in
      inr (
        subst Aims (ok_inj h1) (multi_target_resolver-Aims rs (compile_all-Aims specs rs compiled)))
