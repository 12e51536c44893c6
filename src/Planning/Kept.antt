-- ===== src/Planning/Kept.antt =====
-- `PolicyEngine.apply` keeps the entries that conform to the policy, in their order.
use pyverge.Prelude.{
  Bool, true, false, not, ◌&&◌, ◌||◌, List, [], ◌∷◌, ◌≡◌, refl, sym, length, keep_if, any_of,
  if◌then◌else◌, ◌==◌, Bool-cases, inl, inr,
}
use pyverge.Prelude.Int.{exceeds}
use pyverge.Prelude.Linear.{Linear}
use pyverge.Errors.{Outcome, ok, err, ◌>>=◌, bind_inv, ok_inj}
use pyverge.Identity.{EdgeId}
use pyverge.Identity.Order.{linear_node, eq_node}
use pyverge.Planning.Policy.{
  Violation, raise, skip, unknown, PathPlanEntry, PolicyEngine, violation, is_empty, edges_or,
  edges_of, allows, judge, apply,
}

module _ {V : Type 0} ⦃o : Linear V⦄ (engine : PolicyEngine) (has_migration : EdgeId V → Bool) where
  all_there : Outcome (List (EdgeId V)) → Bool
  all_there (ok edges) = not (any_of (λ e. not (has_migration e)) edges)
  all_there (err f) = false

  -- The direction is allowed, the depth is within the limit, there is a path unless the version is
  -- the target already, and each of its migrations is there.
  unfoldable pub conforms : PathPlanEntry V → Bool
  unfolding all_there
  conforms entry =
      allows engine.direction entry.source entry.target
      && (not (exceeds (length entry.steps) engine.depth_limit)
          && (((entry.source == entry.target) || not (is_empty entry.steps))
              && all_there (edges_or entry.edges (edges_of entry.steps))))

  violation-kept : (v : Violation) (kept : Bool) → violation v ≡ ok kept → kept ≡ false
  unfolding violation
  violation-kept raise kept h = cc
  violation-kept skip kept h = sym (ok_inj h)
  violation-kept unknown kept h = cc

  module _ (v3 : Violation) where
    walked : Outcome (List (EdgeId V)) → Outcome Bool
    unfolding violation
    walked edges = edges >>= λ edges.
        if any_of (λ e. not (has_migration e)) edges then violation v3 else ok true

    walked-kept :
        (edges : Outcome (List (EdgeId V))) (kept : Bool)
        → walked edges ≡ ok kept
        → kept ≡ all_there edges
    unfolding walked all_there
    walked-kept (err f) kept h = cc
    walked-kept (ok edges) kept h = elim (Bool-cases (any_of (λ e. not (has_migration e)) edges)) [
      | inl missing ↦ rw missing (violation-kept v3 kept (rw missing at h))
      | inr there ↦ rw there (sym (ok_inj (rw there at h)))
    ]

    judged :
        (v1 v2 : Violation) (a d t e : Bool) (edges : Outcome (List (EdgeId V))) (kept : Bool)
        → (if not a
            then violation v1
            else if d
            then violation v2
            else if not t && e
            then violation v3
            else walked edges)
          ≡ ok kept
        → kept ≡ (a && (not d && ((t || not e) && all_there edges)))
    judged v1 v2 false d t e edges kept h = violation-kept v1 kept h
    judged v1 v2 true true t e edges kept h = violation-kept v2 kept h
    judged v1 v2 true false false true edges kept h = violation-kept v3 kept h
    judged v1 v2 true false true true edges kept h = walked-kept edges kept h
    judged v1 v2 true false false false edges kept h = walked-kept edges kept h
    judged v1 v2 true false true false edges kept h = walked-kept edges kept h

  judge-conforms :
      (entry : PathPlanEntry V) (kept : Bool)
      → judge engine has_migration entry ≡ ok kept
      → kept ≡ conforms entry
  unfolding judge conforms walked
  judge-conforms entry kept h =
      judged engine.on_missing_path engine.on_direction_violation engine.on_depth_violation
        (allows engine.direction entry.source entry.target)
        (exceeds (length entry.steps) engine.depth_limit) (entry.source == entry.target)
        (is_empty entry.steps) (edges_or entry.edges (edges_of entry.steps)) kept h

  -- Where the policy raises nothing, the kept entries are exactly those that conform, in order:
  -- an allowed direction, a depth within the limit, a path unless the entry is at its target, and
  -- every migration of it there.
  pub apply-conforms :
      (entries kept : List (PathPlanEntry V))
      → apply engine has_migration entries ≡ ok kept
      → kept ≡ keep_if conforms entries
  unfolding apply
  apply-conforms [] kept h = sym (ok_inj h)
  apply-conforms (entry ∷ entries) kept h =
      let (mine, judged, h1) = bind_inv (judge engine has_migration entry) _ h in
      let (rest, applied, h2) = bind_inv (apply engine has_migration entries) _ h1 in
      let e = judge-conforms entry mine judged in
      let es = apply-conforms entries rest applied in rw (← ok_inj h2, e, es) refl

  violation-raise : (v : Violation) (kept : Bool) → v ≡ raise → violation v ≡ ok kept → kept ≡ true
  unfolding violation
  violation-raise v kept e h = absurd (let bad = rw e at h in cc)

  module _ (r1 : engine.on_direction_violation ≡ raise) (r2 : engine.on_depth_violation ≡ raise)
      (r3 : engine.on_missing_path ≡ raise) where
    walked-raise :
        (edges : Outcome (List (EdgeId V))) (kept : Bool)
        → walked engine.on_missing_path edges ≡ ok kept
        → kept ≡ true
    unfolding walked
    walked-raise (err f) kept h = cc
    walked-raise (ok edges) kept h = elim (Bool-cases (any_of (λ e. not (has_migration e)) edges)) [
      | inl missing ↦ violation-raise engine.on_missing_path kept r3 (rw missing at h)
      | inr there ↦ sym (ok_inj (rw there at h))
    ]

    judged-raise :
        (a d t e : Bool) (edges : Outcome (List (EdgeId V))) (kept : Bool)
        → (if not a
            then violation engine.on_direction_violation
            else if d
            then violation engine.on_depth_violation
            else if not t && e
            then violation engine.on_missing_path
            else walked engine.on_missing_path edges)
          ≡ ok kept
        → kept ≡ true
    judged-raise false d t e edges kept h = violation-raise engine.on_direction_violation kept r1 h
    judged-raise true true t e edges kept h = violation-raise engine.on_depth_violation kept r2 h
    judged-raise true false false true edges kept h =
        violation-raise engine.on_missing_path kept r3 h
    judged-raise true false true true edges kept h = walked-raise edges kept h
    judged-raise true false false false edges kept h = walked-raise edges kept h
    judged-raise true false true false edges kept h = walked-raise edges kept h

    judge-raise :
        (entry : PathPlanEntry V) (kept : Bool)
        → judge engine has_migration entry ≡ ok kept
        → kept ≡ true
    unfolding judge walked
    judge-raise entry kept h =
        judged-raise (allows engine.direction entry.source entry.target)
          (exceeds (length entry.steps) engine.depth_limit) (entry.source == entry.target)
          (is_empty entry.steps) (edges_or entry.edges (edges_of entry.steps)) kept h

    -- Where each violation raises, a plan that comes through is the plan that went in: nothing is
    -- dropped silently.
    pub apply-raise :
        (entries kept : List (PathPlanEntry V))
        → apply engine has_migration entries ≡ ok kept
        → kept ≡ entries
    unfolding apply
    apply-raise [] kept h = sym (ok_inj h)
    apply-raise (entry ∷ entries) kept h =
        let (mine, judged, h1) = bind_inv (judge engine has_migration entry) _ h in
        let (rest, applied, h2) = bind_inv (apply engine has_migration entries) _ h1 in
        let e = judge-raise entry mine judged in
        let es = apply-raise entries rest applied in rw (← ok_inj h2, e, es) refl
