-- ===== src/Topological/Split.antt =====
-- How many edges go out of a node of a built backend, for `topological_sort`.
use pyverge.Prelude.{
  ℕ, suc, ◌+◌, ◌≤◌, ◌≡◌, refl, sym, ap, ◌∙◌, true, false, List, [], ◌∷◌, ◌++◌, Bool-cases, inl, inr,
  ◌==◌, arith, beq_refl, if◌then◌else◌,
}
use pyverge.Prelude.Dict.{Dict, get, set_item, get-set_item}
use pyverge.Prelude.Linear.{Linear, lt}
use pyverge.Prelude.Sorted.{sorted, insort_left, insort_left-nil, insort_left-cons}
use pyverge.Prelude.Groups.{bucket, add, contains, contains-append}
use pyverge.Identity.{NodeId, NodeEntry, EdgeId}
use pyverge.Identity.Order.{linear_node, linear_edge, eq_node, eq_edge}
use pyverge.Backend.{BuildOptions, build, edge_sets, at_ends, outgoing}
use pyverge.Search.{sorted_out}
use pyverge.Topological.Counts.{arrivals, waiting, tally}

module _ {V : Type 0} ⦃o : Linear V⦄ where
  arrivals-insort_left :
      (n : NodeId V) (e : EdgeId V) (es : List (EdgeId V))
      → arrivals n (insort_left (λ (e : EdgeId V). e) e es) ≡ arrivals n (e ∷ es)
  unfolding arrivals
  arrivals-insort_left n e [] = rw insort_left-nil refl
  arrivals-insort_left n e (y ∷ es) = rw insort_left-cons (elim (Bool-cases (lt y e)) [
    | inl less ↦ let ih = arrivals-insort_left n e es in rw less (ground arith)
    | inr more ↦ rw more refl
  ])

  arrivals-sorted :
      (n : NodeId V) (es : List (EdgeId V))
      → arrivals n (sorted (λ (e : EdgeId V). e) es) ≡ arrivals n es
  unfolding arrivals sorted
  arrivals-sorted n [] = refl
  arrivals-sorted n (e ∷ es) =
      let ih = arrivals-sorted n es in
      rw (arrivals-insort_left n e (sorted (λ (e : EdgeId V). e) es), ih) refl

  -- How many of the edges lead from the one node to the other.
  unfoldable from : NodeId V → NodeId V → List (EdgeId V) → ℕ
  from c n [] = 0
  from c n (e ∷ es) =
      let rest = from c n es in
      if e.source == c then (if e.target == n then suc rest else rest) else rest

  arrivals-append :
      (n : NodeId V) (xs : List (EdgeId V)) (e : EdgeId V)
      → arrivals n (xs ++ e ∷ []) ≡ arrivals n xs + (if e.target == n then 1 else 0)
  unfolding arrivals
  arrivals-append n [] e = ground arith
  arrivals-append n (x ∷ xs) e = let ih = arrivals-append n xs e in ground arith

  arrivals-add :
      (n : NodeId V) (e : EdgeId V) (xs : List (EdgeId V))
      → arrivals n (add e xs) ≤ arrivals n xs + (if e.target == n then 1 else 0)
  unfolding add
  arrivals-add n e xs = elim (Bool-cases (contains e xs)) [
    | inl old ↦ rw old (omega arith)
    | inr new ↦ let a = arrivals-append n xs e in rw new (omega arith)
  ]

  arrivals-edge_sets :
      (c n : NodeId V) (d : Dict (NodeId V) (List (EdgeId V))) (es : List (EdgeId V))
      → arrivals n (bucket c (edge_sets (λ (e : EdgeId V). e.source ∷ []) d es))
        ≤ arrivals n (bucket c d) + from c n es
  unfolding edge_sets at_ends bucket from
  arrivals-edge_sets c n d [] = omega arith
  arrivals-edge_sets c n d (e ∷ es) =
      let added = add e (bucket e.source d) in
      let ih = arrivals-edge_sets c n (set_item e.source added d) es in
      elim (Bool-cases (e.source == c)) [
        | inl same ↦
            let sc : e.source ≡ c = (eq_node.same_iff e.source c).0 same in
            let b : bucket c (set_item e.source added d) ≡ add e (bucket c d) =
              rw (get-set_item, same) (ap (λ z. add e (bucket z d)) sc) in
            let a = arrivals-add n e (bucket c d) in
            let m = ap (arrivals n) b in rw same (ground arith)
        | inr other ↦
            let b : bucket c (set_item e.source added d) ≡ bucket c d =
              rw (get-set_item, other) refl in
            let m = ap (arrivals n) b in rw other (omega arith)
      ]

  contains-tally : (c : NodeId V) (xs : List (NodeId V)) → tally c xs ≡ 0 → contains c xs ≡ false
  unfolding tally contains
  contains-tally c [] h = refl
  contains-tally c (x ∷ xs) h = ground (arith, contains-tally c xs)

  other_way : (a b : NodeId V) → (a == b) ≡ false → (b == a) ≡ false
  other_way a b h = elim (Bool-cases (b == a)) [
    | inl same ↦
        let ba : b ≡ a = (eq_node.same_iff b a).0 same in
        let back : (a == b) ≡ true = ap (λ z. a == z) ba ∙ beq_refl a in
        absurd (let m : false ≡ true = sym h ∙ back in cc)
    | inr other ↦ other
  ]

  waiting-from :
      (c n : NodeId V) (done : List (NodeId V)) (es : List (EdgeId V))
      → contains c done ≡ false
      → waiting (done ++ c ∷ []) n es + from c n es ≤ waiting done n es
  unfolding waiting from contains
  waiting-from c n done [] h = omega arith
  waiting-from c n done (e ∷ es) h =
      let ih = waiting-from c n done es h in
      rw (contains-append e.source done (c ∷ [])) (elim (Bool-cases (c == e.source)) [
        | inl same ↦
            let cs : c ≡ e.source = (eq_node.same_iff c e.source).0 same in
            let back : (e.source == c) ≡ true = ap (λ z. z == c) (sym cs) ∙ beq_refl c in
            let new : contains e.source done ≡ false = ap (λ z. contains z done) (sym cs) ∙ h in
            rw (back, new, same) (ground arith)
        | inr other ↦ rw (other, other_way c e.source other) (ground arith)
      ])

  -- What goes out of a node that is not done no longer waits when it is done.
  pub waiting-sorted_out :
      (nodes : List (NodeEntry V)) (edges : List (EdgeId V)) (options : BuildOptions V)
      (done : List (NodeId V)) (c n : NodeId V)
      → tally c done ≡ 0
      → waiting (done ++ c ∷ []) n (build nodes edges options).edges
          + arrivals n (sorted_out (build nodes edges options) c)
        ≤ waiting done n (build nodes edges options).edges
  unfolding sorted_out outgoing build get arrivals
  waiting-sorted_out nodes edges options done c n h =
      let es = sorted (λ (e : EdgeId V). e) edges in
      let sets = edge_sets (λ (e : EdgeId V). e.source ∷ []) [] es in
      let s = arrivals-sorted n (bucket c sets) in
      let a = arrivals-edge_sets c n [] es in
      let w = waiting-from c n done es (contains-tally c done h) in unfold bucket in omega arith
