-- ===== src/Search/Pushed.antt =====
-- The step of the breadth-first loop that meets a new node.
use pyverge.Prelude.{
  ℕ, suc, ◌≤◌, ◌≡◌, refl, sym, subst, ap, ◌∙◌, ◌⊎◌, inl, inr, Bool, true, false, List, [], ◌∷◌,
  ◌++◌, length, length-append, All, Bool-cases, ◌==◌, arith, beq_refl, if◌then◌else◌,
}
use pyverge.Prelude.Dict.{set_item, get-set_item}
use pyverge.Prelude.Linear.{Linear}
use pyverge.Prelude.Groups.{contains, contains-add, contains-append}
use pyverge.Identity.{NodeId, EdgeId}
use pyverge.Identity.Order.{linear_node, linear_edge, eq_node, eq_edge}
use pyverge.Search.{State, pushed}
use pyverge.Search.Invariant.{IsRising, IsSeen, IsReached, IsScanned, length-set_item}
use pyverge.Search.Paths.{Traced, step, Traced-set_item}

if-same : (b : Bool) → (if b then true else true) ≡ true
if-same true = refl
if-same false = refl

module _ {V : Type 0} ⦃o : Linear V⦄ (out : NodeId V → List (EdgeId V)) (allowed : EdgeId V → Bool)
    (start goal : NodeId V) where
  module _ (c : NodeId V) (e : EdgeId V) (es : List (EdgeId V)) (s : State V)
      (i : IsScanned out allowed start goal c (e ∷ es) s)
      (unseen : contains e.target s.seen ≡ false) where
    -- The depths with the new node one edge beyond the current one.
    abbrev deeper : NodeId V → ℕ
    deeper n = if e.target == n then suc (i.depth c) else i.depth n

    kept_depth : (n : NodeId V) → IsSeen out allowed start goal s n → deeper n ≡ i.depth n
    kept_depth n h = elim (Bool-cases (e.target == n)) [
      | inl same ↦ absurd (
          let tn = (eq_node.same_iff e.target n).0 same in
          let m : false ≡ true = sym unseen ∙ ap (λ z. contains z s.seen) tn ∙ h in cc)
      | inr other ↦ rw other refl
    ]

    new_depth : deeper e.target ≡ suc (i.depth c)
    new_depth = rw (beq_refl e.target) refl

    kept_old :
        (n : NodeId V)
        → IsSeen out allowed start goal s n
        → IsSeen out allowed start goal (pushed e s) n
    kept_old n h = rw (contains-add e.target n s.seen, h) (if-same (e.target == n))

    target_added : IsSeen out allowed start goal (pushed e s) e.target
    target_added = rw (contains-add e.target e.target s.seen, beq_refl e.target) refl

    -- A node that is seen now is the new one, or was seen before.
    add_cases :
        (n : NodeId V)
        → IsSeen out allowed start goal (pushed e s) n
        → (e.target ≡ n) ⊎ IsSeen out allowed start goal s n
    add_cases n h = elim (Bool-cases (e.target == n)) [
      | inl same ↦ inl ((eq_node.same_iff e.target n).0 same)
      | inr other ↦ inr (let g = rw (contains-add e.target n s.seen, other) at h in g)
    ]

    -- The new node lies as deep as any that has been seen.
    pushed_above :
        (n : NodeId V)
        → IsSeen out allowed start goal s n
        → (q : List (NodeId V)) → All (IsSeen out allowed start goal s) q
        → All (λ m. i.depth n ≤ i.depth m) q
        → All (λ m. deeper n ≤ deeper m) (q ++ e.target ∷ [])
    pushed_above n h [] a r = (rw (kept_depth n h, new_depth) (i.near n h), tt)
    pushed_above n h (m ∷ q) a r =
        (rw (kept_depth n h, kept_depth m a.0) r.0, pushed_above n h q a.1 r.1)

    pushed_order :
        (q : List (NodeId V))
        → All (IsSeen out allowed start goal s) q
        → IsRising out allowed start goal i.depth q
        → IsRising out allowed start goal deeper (q ++ e.target ∷ [])
    pushed_order [] a r = (tt, tt)
    pushed_order (n ∷ q) a r = (pushed_above n a.0 q a.1 r.0, pushed_order q a.1 r.1)

    pushed_rises :
        All (λ m. i.depth c ≤ i.depth m) s.queue → All (λ m. deeper c ≤ deeper m) (pushed e s).queue
    pushed_rises h = pushed_above c i.current s.queue i.queued h

    pushed_queued :
        (q : List (NodeId V))
        → All (IsSeen out allowed start goal s) q
        → All (IsSeen out allowed start goal (pushed e s)) (q ++ e.target ∷ [])
    pushed_queued [] a = (target_added, tt)
    pushed_queued (n ∷ q) a = (kept_old n a.0, pushed_queued q a.1)

    kept_near :
        (n : NodeId V)
        → IsSeen out allowed start goal s n
        → (x : EdgeId V) → IsReached out allowed start goal s i.depth n x
        → IsReached out allowed start goal (pushed e s) deeper n x
    kept_near n h x r = (kept_old x.target r.0, rw (kept_depth n h, kept_depth x.target r.0) r.1)

    module _ (goes_out : contains e (out c) ≡ true) (source : e.source ≡ c) (ok : allowed e ≡ true)
        (not_goal : (e.target == goal) ≡ false) where
      not_start : (e.target == start) ≡ false
      not_start = elim (Bool-cases (e.target == start)) [
        | inl same ↦ absurd (
            let ts = (eq_node.same_iff e.target start).0 same in
            let m : false ≡ true = sym unseen ∙ ap (λ z. contains z s.seen) ts ∙ i.start_seen in cc)
        | inr other ↦ other
      ]

      -- The edge leads to a node that is not the goal and that was not seen.
      pub pushed_step : IsScanned out allowed start goal c es (pushed e s)
      unfolding contains
      pushed_step = record {
        depth = deeper;
        traced = λ n h. elim (add_cases n h) [
          | inl new ↦
              subst
                (λ z.
                  (fs : List (EdgeId V)) × Traced out allowed (set_item e.target e s.predecessor)
                    start z fs
                  × (length fs ≡ deeper z))
                new new_traced
          | inr old ↦
              let (fs, t, l) = i.traced n old in
              (
                fs,
                Traced-set_item out allowed s.predecessor start e.target e (i.fresh e.target unseen)
                    t,
                l ∙ sym (kept_depth n old),
              )
        ];
        short = λ n h.
            rw (length-set_item e.target e s.predecessor (i.fresh e.target unseen))
              (elim (add_cases n h) [
                | inl new ↦ let d = i.short c i.current in rw (← new, new_depth) (omega arith)
                | inr old ↦ let d = i.short n old in rw (kept_depth n old) (omega arith)
              ]);
        fresh = λ n h.
            let g = rw (contains-add e.target n s.seen) at h in
            rw (get-set_item e.target n e s.predecessor) (elim (Bool-cases (e.target == n)) [
              | inl same ↦ absurd (let k = rw same at g in cc)
              | inr other ↦ rw other (i.fresh n (rw other at g))
            ]);
        goal_unseen = rw (contains-add e.target goal s.seen, not_goal) i.goal_unseen;
        start_seen = kept_old start i.start_seen;
        start_depth = kept_depth start i.start_seen ∙ i.start_depth;
        current = kept_old c i.current;
        queued = pushed_queued s.queue i.queued;
        rising = (pushed_rises i.rising.0, pushed_order s.queue i.queued i.rising.1);
        near = λ n h. rw (kept_depth c i.current) (elim (add_cases n h) [
          | inl new ↦ rw (← new, new_depth) (omega arith)
          | inr old ↦ rw (kept_depth n old) (i.near n old)
        ]);
        half = λ x in_out may. elim (i.half x in_out may) [
          | inl m ↦ elim (Bool-cases (e == x)) [
            | inl same ↦ inr (
                subst (λ (z : EdgeId V). IsReached out allowed start goal (pushed e s) deeper c z)
                  ((eq_edge.same_iff e x).0 same)
                  (target_added, rw (new_depth, kept_depth c i.current) (omega arith)))
            | inr other ↦ inl (rw other at m)
          ]
          | inr r ↦ inr (kept_near c i.current x r)
        ];
        open_or_closed = λ n h. elim (add_cases n h) [
          | inl new ↦ inl (
              rw (contains-append n s.queue (e.target ∷ []), new, beq_refl n)
                (if-same (contains n s.queue)))
          | inr old ↦ elim (i.open_or_closed n old) [
            | inl q ↦ inl (rw (contains-append n s.queue (e.target ∷ []), q) refl)
            | inr (inl closed) ↦ inr (inl (λ x in_out may. kept_near n old x (closed x in_out may)))
            | inr (inr self) ↦ inr (inr self)
          ]
        ];
      }
        where
          new_traced :
              (fs : List (EdgeId V)) × Traced out allowed
                (set_item e.target e s.predecessor)
                start
                e.target
                fs
              × (length fs ≡ deeper e.target)
          new_traced =
              let (fs, t, l) = i.traced c i.current in
              let from : Traced out allowed (set_item e.target e s.predecessor) start e.source fs =
                subst (λ z. Traced out allowed (set_item e.target e s.predecessor) start z fs)
                  (sym source)
                  (Traced-set_item out allowed s.predecessor start e.target e
                    (i.fresh e.target unseen) t) in
              let longer = length-append fs (e ∷ []) in
              (
                fs ++ e ∷ [],
                step e from
                    (rw (get-set_item e.target e.target e s.predecessor, beq_refl e.target) refl)
                    refl not_start (subst (λ z. contains e (out z) ≡ true) (sym source) goes_out)
                    ok,
                rw (longer, new_depth) (omega arith),
              )
