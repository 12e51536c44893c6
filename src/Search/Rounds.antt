-- ===== src/Search/Rounds.antt =====
-- A round of the breadth-first loop: the edges of a node, from the first to the last.
use pyverge.Prelude.{
  ℕ, suc, ◌+◌, ◌≤◌, ◌<◌, ◌≡◌, refl, sym, subst, ap, ◌∙◌, ◌⊎◌, inl, inr, Bool, true, false, not,
  ◌||◌, List, [], ◌∷◌, ◌++◌, length, length-append, All, Bool-cases, ◌==◌, arith, beq_refl,
  if◌then◌else◌,
}
use pyverge.Prelude.Dict.{set_item, get-set_item}
use pyverge.Prelude.Linear.{Linear}
use pyverge.Prelude.Groups.{contains, add, contains-add}
use pyverge.Identity.{NodeId, EdgeId}
use pyverge.Identity.Order.{linear_node, linear_edge, eq_node, eq_edge}
use pyverge.Search.{State, Scanned, met, left, pushed, scan}
use pyverge.Search.Paths.{Traced, step, Traced-set_item, IsRoute}
use pyverge.Search.Invariant.{IsSeen, IsScanned, length-set_item, skipped}
use pyverge.Search.Pushed.{pushed_step}

module _ {V : Type 0} ⦃o : Linear V⦄ where
  -- How many of the edges lead to a node that has not been seen.
  abbrev pub pending : List (NodeId V) → List (EdgeId V) → ℕ
  pending seen [] = 0
  pending seen (e ∷ es) =
      let rest = pending seen es in if contains e.target seen then rest else suc rest

  pending-add :
      (t : NodeId V) (seen : List (NodeId V)) (es : List (EdgeId V))
      → pending (add t seen) es ≤ pending seen es
  pending-add t seen [] = omega arith
  pending-add t seen (e ∷ es) =
      let ih = pending-add t seen es in rw (contains-add t e.target seen) (ground arith)

  pending-seen :
      (x : EdgeId V) (seen : List (NodeId V)) (es : List (EdgeId V))
      → contains x es ≡ true
      → contains x.target seen ≡ false
      → pending (add x.target seen) es < pending seen es
  unfolding contains
  pending-seen x seen [] h k = cc
  pending-seen x seen (e ∷ es) h k = elim (Bool-cases (e == x)) [
    | inl same ↦
        let ex = (eq_edge.same_iff e x).0 same in
        let old = pending-add x.target seen es in
        let k' : contains e.target seen ≡ false =
          ap (λ (z : EdgeId V). contains z.target seen) ex ∙ k in
        let et : (x.target == e.target) ≡ true =
          ap (λ (z : EdgeId V). x.target == z.target) ex ∙ beq_refl x.target in
        rw (contains-add x.target e.target seen, et, k') (omega arith)
    | inr other ↦
        let ih = pending-seen x seen es (rw other at h) k in
        rw (contains-add x.target e.target seen) (ground arith)
  ]

module _ {V : Type 0} ⦃o : Linear V⦄ (out : NodeId V → List (EdgeId V)) (allowed : EdgeId V → Bool)
    (start goal : NodeId V) where
  -- A route to the goal leaves the nodes that are done, and is longer than the current node is deep.
  frontier :
      (c : NodeId V) (es : List (EdgeId V)) (s : State V)
      (i : IsScanned out allowed start goal c es s) (v : NodeId V) (rs : List (EdgeId V))
      → IsSeen out allowed start goal s v
      → IsRoute out allowed v rs goal
      → suc (i.depth c) ≤ i.depth v + length rs
  unfolding contains
  frontier c es s i v [] seen r =
      absurd (
        let m : false ≡ true = sym i.goal_unseen ∙ ap (λ z. contains z s.seen) (sym r) ∙ seen in cc)
  frontier c es s i v (x ∷ rs) seen r = elim (i.open_or_closed v seen) [
    | inl queued ↦ let d = deep s.queue i.rising.0 queued in omega arith
    | inr (inl closed) ↦
        let (next_seen, near) = closed x r.0 r.1 in
        let d = frontier c es s i x.target rs next_seen r.2 in omega arith
    | inr (inr self) ↦ let d = ap i.depth self in omega arith
  ]
    where
      deep :
          (q : List (NodeId V))
          → All (λ m. i.depth c ≤ i.depth m) q
          → contains v q ≡ true
          → i.depth c ≤ i.depth v
      deep [] a h = cc
      deep (m ∷ q) a h = elim (Bool-cases (m == v)) [
        | inl same ↦
            let d = ap i.depth ((eq_node.same_iff m v).0 same) in let b = a.0 in omega arith
        | inr other ↦ deep q a.1 (rw other at h)
      ]

  module _ (edges : List (EdgeId V))
      (outs : (n : NodeId V) (e : EdgeId V)
        → contains e (out n) ≡ true
        → (e.source ≡ n) × (contains e edges ≡ true)) where
    -- What is left to do: the nodes in the deque and the edges to nodes that are still to be met.
    abbrev pub work : State V → ℕ
    work s = length s.queue + pending s.seen edges

    -- How the edges of a node may end: the goal was met, by a route as short as any, or all is kept.
    abbrev pub Outcome : NodeId V → ℕ → Scanned V → Type 0
    Outcome c bound (met p) =
        (fs : List (EdgeId V)) × Traced out allowed p start goal fs
        × (length fs ≤ length p)
        × ((rs : List (EdgeId V)) → IsRoute out allowed start rs goal → length fs ≤ length rs)
    Outcome c bound (left s) = IsScanned out allowed start goal c [] s × (work s ≤ bound)

    arrived :
        (c : NodeId V) (e : EdgeId V) (es : List (EdgeId V)) (s : State V) (bound : ℕ)
        → IsScanned out allowed start goal c (e ∷ es) s
        → contains e (out c) ≡ true
        → allowed e ≡ true
        → contains e.target s.seen ≡ false
        → e.target ≡ goal
        → Outcome c bound (met (set_item e.target e s.predecessor))
    arrived c e es s bound i goes_out ok unseen is_goal =
        let (fs, t, l) = i.traced c i.current in
        let new = i.fresh e.target unseen in
        let longer = length-append fs (e ∷ []) in
        let larger = length-set_item e.target e s.predecessor new in
        let d = i.short c i.current in
        (
          fs ++ e ∷ [],
          step e
              (subst (λ z. Traced out allowed (set_item e.target e s.predecessor) start z fs)
                (sym (outs c e goes_out).0)
                (Traced-set_item out allowed s.predecessor start e.target e new t))
              (rw (get-set_item e.target goal e s.predecessor, is_goal, beq_refl goal) refl) is_goal
              not_start
              (subst (λ z. contains e (out z) ≡ true) (sym (outs c e goes_out).0) goes_out) ok,
          omega arith,
          λ rs r.
              let f = frontier c (e ∷ es) s i start rs i.start_seen r in
              let z = i.start_depth in omega arith,
        )
      where
        not_start : (goal == start) ≡ false
        not_start = elim (Bool-cases (goal == start)) [
          | inl same ↦ absurd (
              let gs = (eq_node.same_iff goal start).0 same in
              let m : false ≡ true =
                sym i.goal_unseen ∙ ap (λ z. contains z s.seen) gs ∙ i.start_seen in
              cc)
          | inr other ↦ other
        ]

    scan-skip :
        (e : EdgeId V) (es : List (EdgeId V)) (s : State V)
        → (not (allowed e) || contains e.target s.seen) ≡ true
        → scan out allowed start goal es s ≡ scan out allowed start goal (e ∷ es) s
    unfolding scan
    scan-skip e es s h = rw (scan, h) refl

    scan-goal :
        (e : EdgeId V) (es : List (EdgeId V)) (s : State V)
        → (not (allowed e) || contains e.target s.seen) ≡ false
        → (e.target == goal) ≡ true
        → met (set_item e.target e s.predecessor) ≡ scan out allowed start goal (e ∷ es) s
    unfolding scan
    scan-goal e es s h k = rw (scan, h, k) refl

    scan-pushed :
        (e : EdgeId V) (es : List (EdgeId V)) (s : State V)
        → (not (allowed e) || contains e.target s.seen) ≡ false
        → (e.target == goal) ≡ false
        → scan out allowed start goal es (pushed e s) ≡ scan out allowed start goal (e ∷ es) s
    unfolding scan
    scan-pushed e es s h k = rw (scan, h, k) refl

    -- What the test of an edge says.
    barred_cases :
        (e : EdgeId V) (s : State V)
        → ((not (allowed e) || contains e.target s.seen) ≡ true
            × ((allowed e ≡ true) → IsSeen out allowed start goal s e.target))
          ⊎ ((not (allowed e) || contains e.target s.seen) ≡ false
              × (allowed e ≡ true)
              × (contains e.target s.seen ≡ false))
    barred_cases e s = elim (Bool-cases (allowed e)) [
      | inr shut ↦ inl (rw shut refl, λ ok. absurd (let m : false ≡ true = sym shut ∙ ok in cc))
      | inl ok ↦ elim (Bool-cases (contains e.target s.seen)) [
        | inl old ↦ inl (rw (ok, old) refl, λ _. old)
        | inr new ↦ inr (rw (ok, new) refl, ok, new)
      ]
    ]

    pub scan_lem :
        (c : NodeId V) (es : List (EdgeId V)) (s : State V) (bound : ℕ)
        → ((x : EdgeId V) → contains x es ≡ true → contains x (out c) ≡ true)
        → IsScanned out allowed start goal c es s
        → work s ≤ bound
        → Outcome c bound (scan out allowed start goal es s)
    unfolding scan contains
    scan_lem c [] s bound sub i w = (i, w)
    scan_lem c (e ∷ es) s bound sub i w = elim (barred_cases e s) [
      | inl (shut, seen) ↦
          subst (Outcome c bound) (scan-skip e es s shut)
            (scan_lem c es s bound later (skipped out allowed start goal c e es s seen i) w)
      | inr (free, ok, new) ↦ elim (Bool-cases (e.target == goal)) [
        | inl same ↦
            subst (Outcome c bound) (scan-goal e es s free same)
              (arrived c e es s bound i first ok new ((eq_node.same_iff e.target goal).0 same))
        | inr other ↦
            let less = pending-seen e s.seen edges (outs c e first).1 new in
            let grown = length-append s.queue (e.target ∷ []) in
            let kept =
              pushed_step out allowed start goal c e es s i new first (outs c e first).0 ok other in
            subst (Outcome c bound) (scan-pushed e es s free other)
              (scan_lem c es (pushed e s) bound later kept (omega arith))
      ]
    ]
      where
        first : contains e (out c) ≡ true
        first = sub e (rw (beq_refl e) refl)

        later : (x : EdgeId V) → contains x es ≡ true → contains x (out c) ≡ true
        later x h = sub x (elim (Bool-cases (e == x)) [
          | inl same ↦ rw same refl
          | inr other ↦ rw (other, h) refl
        ])
