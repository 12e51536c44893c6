-- ===== src/Topological/Kahn.antt =====
-- The invariant of the loops of `topological_sort`.
use pyverge.Prelude.{
  ℕ, zero, suc, ◌+◌, ◌≤◌, ◌≡◌, refl, sym, subst, ap, ◌∙◌, Bool, true, Option, none, some, List, [],
  ◌∷◌, ◌++◌, length, length-append, All, All-map, Bool-cases, inl, inr, Option-cases, ◌==◌, arith,
  beq_refl, if◌then◌else◌, some_inj,
}
use pyverge.Prelude.Int.{ℤ, pos, negsuc}
use pyverge.Prelude.Dict.{Dict, get, is_some, set_item, get-set_item}
use pyverge.Prelude.Linear.{Linear}
use pyverge.Errors.{ok, ok_inj}
use pyverge.Identity.{NodeId, EdgeId}
use pyverge.Identity.Order.{linear_node, linear_edge, eq_node}
use pyverge.Topological.{release, minus_one, is_zero}
use pyverge.Topological.Counts.{
  joined, has_joined, AtLeast, AtLeast-trans, AtLeast-minus_one, AtLeast-zero, pends, positives,
  positives-set_item, tally, tally-append, arrivals, waiting, waiting-snoc,
}

-- One less leaves a counter joined, and lets one join that falls to zero.
joined-minus_one :
    (i : ℤ) → joined (minus_one i) ≡ joined i + (if is_zero (minus_one i) then 1 else 0)
joined-minus_one (pos zero) = refl
joined-minus_one (pos (suc zero)) = refl
joined-minus_one (pos (suc (suc k))) = refl
joined-minus_one (negsuc k) = refl

pends-minus_one : (i : ℤ) → pends (minus_one i) + (if is_zero (minus_one i) then 1 else 0) ≤ pends i
pends-minus_one (pos zero) = omega arith
pends-minus_one (pos (suc zero)) = omega arith
pends-minus_one (pos (suc (suc k))) = omega arith
pends-minus_one (negsuc k) = omega arith

module _ {V : Type 0} ⦃o : Linear V⦄ (edges : List (EdgeId V)) (known : NodeId V → Bool)
    (size : ℕ) where
  -- The counters `d`, the deque `ready` and the nodes that are `done`, where the edges `left` are
  -- still to be followed; `size` bounds what can be done, and `known` tells the nodes of the graph.
  pub record IsKahn (left : List (EdgeId V)) (d : Dict (NodeId V) ℤ) (ready done : List (NodeId V))
      : Type 0 where
    pub bounds :
        (n : NodeId V) (i : ℤ)
        → get n d ≡ some i
        → AtLeast i (waiting done n edges + arrivals n left)
    pub room : length done + length ready + positives d ≤ size
    pub tallies : (n : NodeId V) → tally n done + tally n ready ≡ has_joined (get n d)
    pub keys : (n : NodeId V) → is_some (get n d) ≡ known n
    pub free : All (λ n. waiting done n edges ≡ 0) ready

  All-snoc :
      (P : NodeId V → Type 0) (q : List (NodeId V)) (t : NodeId V)
      → All P q
      → P t
      → All P (q ++ t ∷ [])
  All-snoc P [] t a h = (h, tt)
  All-snoc P (n ∷ q) t a h = (a.0, All-snoc P q t a.1 h)

  module _ (e : EdgeId V) (es : List (EdgeId V)) (d : Dict (NodeId V) ℤ)
      (ready done : List (NodeId V)) (i : ℤ) (g : get e.target d ≡ some i)
      (k : IsKahn (e ∷ es) d ready done) where
    abbrev lowered : Dict (NodeId V) ℤ
    lowered = set_item e.target (minus_one i) d

    abbrev waits : List (NodeId V)
    waits = if is_zero (minus_one i) then ready ++ e.target ∷ [] else ready

    lowered_bounds :
        (n : NodeId V) (j : ℤ)
        → get n lowered ≡ some j
        → AtLeast j (waiting done n edges + arrivals n es)
    unfolding arrivals
    lowered_bounds n j h = elim (Bool-cases (e.target == n)) [
      | inl same ↦
          let tn : e.target ≡ n = (eq_node.same_iff e.target n).0 same in
          let old : get n d ≡ some i = ap (λ z. get z d) (sym tn) ∙ g in
          let ji : minus_one i ≡ j = some_inj (rw (get-set_item, same) at h) in
          let b0 = k.bounds n i old in
          let b = rw same at b0 in
          let c : waiting done n edges + suc (arrivals n es)
              ≡ suc (waiting done n edges + arrivals n es) =
            omega arith in
          subst (λ z. AtLeast z (waiting done n edges + arrivals n es)) ji
            (AtLeast-minus_one i (waiting done n edges + arrivals n es) (subst (AtLeast i) c b))
      | inr other ↦
          let old : get n d ≡ some j = rw (get-set_item, other) at h in
          let b = k.bounds n j old in rw other at b
    ]

    lowered_room : length done + length waits + positives lowered ≤ size
    lowered_room =
        let moved = positives-set_item e.target i (minus_one i) d g in
        let lost = pends-minus_one i in
        let r = k.room in
        elim (Bool-cases (is_zero (minus_one i))) [
          | inl falls ↦
              let grown = length-append ready (e.target ∷ []) in
              let l = rw falls at lost in rw falls (omega arith)
          | inr more ↦ let l = rw more at lost in rw more (omega arith)
        ]

    lowered_tallies : (n : NodeId V) → tally n done + tally n waits ≡ has_joined (get n lowered)
    unfolding tally
    lowered_tallies n =
        let t = k.tallies n in
        rw (get-set_item e.target n (minus_one i) d) (elim (Bool-cases (e.target == n)) [
          | inl same ↦
              let tn : e.target ≡ n = (eq_node.same_iff e.target n).0 same in
              let old : has_joined (get n d) ≡ joined i =
                ap (λ z. has_joined (get z d)) (sym tn) ∙ ap has_joined g in
              let j = joined-minus_one i in
              rw same (elim (Bool-cases (is_zero (minus_one i))) [
                | inl falls ↦
                    let one = tally-append n ready (e.target ∷ []) in
                    let p = rw same at one in let q = rw falls at j in rw falls (omega arith)
                | inr more ↦ let q = rw more at j in rw more (omega arith)
              ])
          | inr other ↦ rw other (elim (Bool-cases (is_zero (minus_one i))) [
            | inl falls ↦
                let one = tally-append n ready (e.target ∷ []) in
                let p = rw other at one in rw falls (omega arith)
            | inr more ↦ rw more t
          ])
        ])

    lowered_free : All (λ n. waiting done n edges ≡ 0) waits
    unfolding arrivals
    lowered_free = elim (Bool-cases (is_zero (minus_one i))) [
      | inl falls ↦
          let b0 = k.bounds e.target i g in
          let b = rw (beq_refl e.target) at b0 in
          let c : waiting done e.target edges + suc (arrivals e.target es)
              ≡ suc (waiting done e.target edges + arrivals e.target es) =
            omega arith in
          let w =
            AtLeast-zero (minus_one i) (waiting done e.target edges + arrivals e.target es) falls (
              AtLeast-minus_one i (waiting done e.target edges + arrivals e.target es)
                (subst (AtLeast i) c b)) in
          rw falls (All-snoc (λ n. waiting done n edges ≡ 0) ready e.target k.free (omega arith))
      | inr more ↦ rw more k.free
    ]

    lowered_keys : (n : NodeId V) → is_some (get n lowered) ≡ known n
    lowered_keys n =
        rw (get-set_item e.target n (minus_one i) d) (elim (Bool-cases (e.target == n)) [
          | inl same ↦
              let tn : e.target ≡ n = (eq_node.same_iff e.target n).0 same in
              let old : is_some (get n d) ≡ true =
                ap (λ z. is_some (get z d)) (sym tn) ∙ ap is_some g in
              rw same (sym old ∙ k.keys n)
          | inr other ↦ rw other (k.keys n)
        ])

    release_step : IsKahn es lowered waits done
    release_step = record {
      bounds = lowered_bounds;
      room = lowered_room;
      tallies = lowered_tallies;
      keys = lowered_keys;
      free = lowered_free;
    }

  pub release_lem :
      (es : List (EdgeId V)) (d d' : Dict (NodeId V) ℤ) (ready ready' done : List (NodeId V))
      → release es d ready ≡ ok (d', ready')
      → IsKahn es d ready done
      → IsKahn [] d' ready' done
  unfolding release
  release_lem [] d d' ready ready' done h k =
      subst (λ (p : Dict (NodeId V) ℤ × List (NodeId V)). IsKahn [] p.0 p.1 done) (ok_inj h) k
  release_lem (e ∷ es) d d' ready ready' done h k = elim (Option-cases (get e.target d)) [
    | inl missing ↦ absurd (let m = rw (release, missing) at h in cc)
    | inr (i, g) ↦
        release_lem es (set_item e.target (minus_one i) d) d'
          (if is_zero (minus_one i) then ready ++ e.target ∷ [] else ready) ready' done
          (rw (release, g) at h) (release_step e es d ready done i g k)
  ]

  has_joined-one : (x : Option ℤ) → has_joined x ≤ 1
  has_joined-one none = omega arith
  has_joined-one (some (pos zero)) = omega arith
  has_joined-one (some (pos (suc n))) = omega arith
  has_joined-one (some (negsuc n)) = omega arith

  -- A node of the deque has not been taken before.
  pub unused :
      (d : Dict (NodeId V) ℤ) (c : NodeId V) (ready done : List (NodeId V))
      → IsKahn [] d (c ∷ ready) done
      → tally c done ≡ 0
  unfolding tally
  unused d c ready done k =
      let t = rw (beq_refl c) at (k.tallies c) in let b = has_joined-one (get c d) in omega arith

  -- The next node is taken; `split` is that its edges are among those that wait for it.
  pub taken :
      (es : List (EdgeId V)) (d : Dict (NodeId V) ℤ) (c : NodeId V) (ready done : List (NodeId V))
      → ((n : NodeId V) → waiting (done ++ c ∷ []) n edges + arrivals n es ≤ waiting done n edges)
      → IsKahn [] d (c ∷ ready) done
      → IsKahn es d ready (done ++ c ∷ [])
  unfolding tally arrivals
  taken es d c ready done split k = record {
    bounds = λ n i h.
        let b = k.bounds n i h in
        let s = split n in
        AtLeast-trans i (waiting (done ++ c ∷ []) n edges + arrivals n es)
          (waiting done n edges + 0) b (omega arith);
    room = let l = length-append done (c ∷ []) in let r = k.room in omega arith;
    tallies = λ n. let t = k.tallies n in let a = tally-append n done (c ∷ []) in ground arith;
    keys = k.keys;
    free = All-map (λ n h. let w = waiting-snoc done c n edges in omega arith) ready k.free.1;
  }
