-- ===== src/Topological/Whole.antt =====
-- `topological_sort` of a built backend, against the edges of the graph.
use pyverge.Prelude.{
  ℕ, zero, suc, ◌≡◌, refl, sym, ap, ◌∙◌, Bool, true, false, Option, none, some, List, [], ◌∷◌, ◌++◌,
  length, Bool-cases, inl, inr, ◌==◌, eq_nat, arith, beq_refl, if◌then◌else◌, some_inj,
}
use pyverge.Prelude.Int.{ℤ, pos, negsuc}
use pyverge.Prelude.Dict.{Dict, get, is_some}
use pyverge.Prelude.Linear.{Linear, lt}
use pyverge.Prelude.Sorted.{sorted, insort_left, insort_left-nil, insort_left-cons}
use pyverge.Prelude.Groups.{contains}
use pyverge.Errors.{Fault, ok}
use pyverge.Identity.{NodeId, NodeEntry, EdgeId}
use pyverge.Identity.Order.{linear_node, linear_edge, eq_node, eq_edge}
use pyverge.Backend.{BuildOptions, build}
use pyverge.Backend.Outgoing.{contains-sorted}
use pyverge.Search.{sorted_out}
use pyverge.Topological.{
  Sorting, order, raised, out_of_fuel, zeros, count_edges, first_ready, drain, checked,
  topological_sort,
}
use pyverge.Topological.Counts.{has_joined, joined, pends, positives, tally, waiting}
use pyverge.Topological.Degrees.{is_entry}
use pyverge.Topological.Kahn.{IsKahn}
use pyverge.Topological.Start.{first-IsKahn}
use pyverge.Topological.Respected.{
  IsRespected, IsRespected-at, Outcome-cases, drain_order, drain_total,
}
use pyverge.Topological.Split.{waiting-sorted_out}

joined-pends : (i : ℤ) → pends i ≡ 0 → joined i ≡ 1
joined-pends (pos zero) h = refl
joined-pends (pos (suc n)) h = absurd (omega arith)
joined-pends (negsuc n) h = refl

order_inj : {V : Type 0} {ms ns : List (NodeId V)} → order ms ≡ order ns → ms ≡ ns
order_inj h = cc

raised_order : {V : Type 0} {f : Fault} {ns : List (NodeId V)} → raised f ≡ order ns → ⊥
raised_order h = cc

checked_total :
    {V : Type 0} ⦃o : Linear V⦄ (n : ℕ) (r : Sorting V)
    → checked n r ≡ out_of_fuel
    → r ≡ out_of_fuel
checked_total n (order ms) h = elim (Bool-cases (length ms == n)) [
  | inl same ↦ absurd (let m = rw same at h in cc)
  | inr other ↦ absurd (let m = rw other at h in cc)
]
checked_total n (raised f) h = h
checked_total n out_of_fuel h = h

checked_inv :
    {V : Type 0} ⦃o : Linear V⦄ (n : ℕ) (r : Sorting V) (ns : List (NodeId V))
    → checked n r ≡ order ns
    → (r ≡ order ns) × (length ns ≡ n)
checked_inv n (order ms) ns h = elim (Bool-cases (length ms == n)) [
  | inl same ↦
      let e : ms ≡ ns = order_inj (rw same at h) in
      (ap order e, ap length (sym e) ∙ (eq_nat.same_iff (length ms) n).0 same)
  | inr other ↦ absurd (raised_order (rw other at h))
]
checked_inv n (raised f) ns h = cc
checked_inv n out_of_fuel ns h = cc

module _ {V : Type 0} ⦃o : Linear V⦄ where
  all_joined :
      (d : Dict (NodeId V) ℤ) (n : NodeId V) (i : ℤ)
      → positives d ≡ 0
      → get n d ≡ some i
      → joined i ≡ 1
  unfolding get
  all_joined [] n i p g = cc
  all_joined ((k, j) ∷ d) n i p g = elim (Bool-cases (k == n)) [
    | inl same ↦
        let ji : j ≡ i = some_inj (rw same at g) in
        ap joined (sym ji) ∙ joined-pends j (omega arith)
    | inr other ↦ all_joined d n i (omega arith) (rw other at g)
  ]

  is_entry-insort_left :
      (n : NodeId V) (m : NodeEntry V) (ms : List (NodeEntry V))
      → is_entry n (insort_left (λ (m : NodeEntry V). m.id) m ms) ≡ is_entry n (m ∷ ms)
  unfolding is_entry
  is_entry-insort_left n m [] = rw insort_left-nil refl
  is_entry-insort_left n m (y ∷ ms) = rw insort_left-cons (elim (Bool-cases (lt y.id m.id)) [
    | inl less ↦ let ih = is_entry-insort_left n m ms in rw less (ground arith)
    | inr more ↦ rw more refl
  ])

  is_entry-sorted :
      (n : NodeId V) (ms : List (NodeEntry V))
      → is_entry n (sorted (λ (m : NodeEntry V). m.id) ms) ≡ is_entry n ms
  unfolding is_entry sorted
  is_entry-sorted n [] = refl
  is_entry-sorted n (m ∷ ms) =
      rw (is_entry-insort_left n m (sorted (λ (m : NodeEntry V). m.id) ms), is_entry-sorted n ms)
        refl

  -- Where nothing waits, the source of an edge is done.
  waiting-source :
      (done : List (NodeId V)) (e : EdgeId V) (es : List (EdgeId V))
      → waiting done e.target es ≡ 0
      → contains e es ≡ true
      → contains e.source done ≡ true
  unfolding waiting contains
  waiting-source done e [] w h = cc
  waiting-source done e (x ∷ es) w h = elim (Bool-cases (x == e)) [
    | inl same ↦
        let xe : x ≡ e = (eq_edge.same_iff x e).0 same in
        let w' = rw (xe, beq_refl e.target) at w in
        elim (Bool-cases (contains e.source done)) [
          | inl there ↦ there
          | inr missing ↦ absurd (let z = rw missing at w' in omega arith)
        ]
    | inr other ↦ waiting-source done e es (fewer (x.target == e.target) w) (rw other at h)
  ]
    where
      fewer :
          (b : Bool)
          → (if b
              then (if contains x.source done
                  then waiting done e.target es
                  else suc (waiting done e.target es))
              else waiting done e.target es)
            ≡ 0
          → waiting done e.target es ≡ 0
      fewer true w = ground arith
      fewer false w = w

module _ {V : Type 0} ⦃o : Linear V⦄ (nodes : List (NodeEntry V)) (edges : List (EdgeId V))
    (options : BuildOptions V) where
  sorted_nodes : List (NodeEntry V)
  sorted_nodes = (build nodes edges options).nodes

  sorted_edges : List (EdgeId V)
  sorted_edges = (build nodes edges options).edges

  out : NodeId V → List (EdgeId V)
  out = sorted_out (build nodes edges options)

  start_at :
      (d : Dict (NodeId V) ℤ)
      → count_edges sorted_edges (zeros sorted_nodes []) ≡ ok d
      → IsKahn sorted_edges (λ n. is_entry n sorted_nodes) (length d) [] d (first_ready d) []
  start_at d h = first-IsKahn sorted_nodes sorted_edges d h

  -- A sort that gives an order has drained the deque.
  sorted_inv :
      (ns : List (NodeId V))
      → topological_sort (build nodes edges options) ≡ order ns
      → (d d' : Dict (NodeId V) ℤ) × IsKahn sorted_edges
          (λ n. is_entry n sorted_nodes)
          (length d)
          []
          d'
          []
          ns
        × IsRespected sorted_edges [] ns
        × (length ns ≡ length d)
  unfolding topological_sort sorted_nodes sorted_edges out
  sorted_inv ns h = elim (Outcome-cases (count_edges sorted_edges (zeros sorted_nodes []))) [
    | inr (f, e) ↦ absurd (let m = rw (topological_sort, e) at h in cc)
    | inl (d, e) ↦
        let (run, len) =
          checked_inv (length d) (drain out (suc (length d)) d (first_ready d) []) ns
            (rw (topological_sort, e) at h) in
        let (d', k, r) =
          drain_order sorted_edges (λ n. is_entry n sorted_nodes) (length d) out
            (λ done c n t. waiting-sorted_out nodes edges options done c n t) (suc (length d)) d
            (first_ready d) [] ns run (start_at d e) tt in
        (d, d', k, r, len)
  ]

  -- When `topological_sort` returns an order, the source of each edge of the graph stands before the
  -- edge's target.
  pub topological_sort-before :
      (ls rs : List (NodeId V)) (e : EdgeId V)
      → topological_sort (build nodes edges options) ≡ order (ls ++ e.target ∷ rs)
      → contains e edges ≡ true
      → contains e.source ls ≡ true
  unfolding sorted_edges build
  topological_sort-before ls rs e h m =
      let (d, d', k, r, len) = sorted_inv (ls ++ e.target ∷ rs) h in
      waiting-source ls e sorted_edges (IsRespected-at sorted_edges [] ls rs e.target r)
        (contains-sorted e edges ∙ m)

  -- When `topological_sort` returns an order, each node of the graph stands in it exactly once, and
  -- nothing else does.
  pub tally-topological_sort :
      (ns : List (NodeId V)) (n : NodeId V)
      → topological_sort (build nodes edges options) ≡ order ns
      → tally n ns ≡ (if is_entry n nodes then 1 else 0)
  unfolding sorted_nodes build tally
  tally-topological_sort ns n h =
      let (d, d', k, r, len) = sorted_inv ns h in
      let room = k.room in
      let known : is_some (get n d') ≡ is_entry n nodes = k.keys n ∙ is_entry-sorted n nodes in
      let t = k.tallies n in
      let e =
        counted (get n d') (is_entry n nodes) known (λ i g. all_joined d' n i (omega arith) g) in
      omega arith
    where
      counted :
          (x : Option ℤ) (b : Bool)
          → is_some x ≡ b
          → ((i : ℤ) → x ≡ some i → joined i ≡ 1)
          → has_joined x ≡ (if b then 1 else 0)
      counted none true h j = cc
      counted none false h j = refl
      counted (some i) true h j = j i refl
      counted (some i) false h j = cc

  -- `topological_sort` ends on every graph, cyclic ones too: its loop takes each node once at most.
  pub topological_sort_total : ¬ (topological_sort (build nodes edges options) ≡ out_of_fuel)
  unfolding topological_sort sorted_nodes sorted_edges out
  topological_sort_total h =
      elim (Outcome-cases (count_edges sorted_edges (zeros sorted_nodes []))) [
        | inr (f, e) ↦ let m = rw (topological_sort, e) at h in cc
        | inl (d, e) ↦
            drain_total sorted_edges (λ n. is_entry n sorted_nodes) (length d) out
              (λ done c n t. waiting-sorted_out nodes edges options done c n t) (suc (length d)) d
              (first_ready d) [] (start_at d e) (omega arith)
              (checked_total (length d) (drain out (suc (length d)) d (first_ready d) [])
                (rw (topological_sort, e) at h))
      ]
