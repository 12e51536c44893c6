-- ===== src/Topological/Start.antt =====
-- The counters before the loop of the sort.
use pyverge.Prelude.{
  ℕ, zero, suc, ◌+◌, ◌≤◌, ◌≡◌, refl, sym, subst, ap, ◌∙◌, Bool, true, false, Option, none, some,
  List, [], ◌∷◌, length, map, keep_if, keep_if-holds, All, All-map, Bool-cases, inl, inr, ◌==◌,
  arith, beq_refl, if◌then◌else◌, some_inj,
}
use pyverge.Prelude.Int.{ℤ, pos, negsuc}
use pyverge.Prelude.Dict.{Dict, get, is_some}
use pyverge.Prelude.Keys.{IsDict}
use pyverge.Prelude.Linear.{Linear, lt}
use pyverge.Prelude.Sorted.{sorted, insort_left, insort_left-nil, insort_left-cons}
use pyverge.Errors.{ok}
use pyverge.Identity.{NodeId, NodeEntry, EdgeId}
use pyverge.Identity.Order.{linear_node, linear_edge, eq_node}
use pyverge.Topological.{zeros, count_edges, first_ready, is_some_zero, is_zero}
use pyverge.Topological.Counts.{
  AtLeast, has_joined, pends, positives, tally, tally-keep_if, tally-keys, tally-sorted, arrivals,
  waiting, waiting-none,
}
use pyverge.Topological.Degrees.{
  zeros-IsDict, count_edges-IsDict, get-count_edges, get-count_edges-none, is_entry, get-zeros,
}
use pyverge.Topological.Kahn.{IsKahn}

length-keep_if :
    {K : Type 0} (p : K → Bool) (k : K) (ks : List K)
    → length (keep_if p (k ∷ ks)) ≡ (if p k then 1 else 0) + length (keep_if p ks)
length-keep_if p k ks = ground arith

all_told :
    (x : Option ℤ) (k : ℕ) (b : Bool)
    → x ≡ (if b then some (pos k) else none)
    → (m : ℕ) → m ≡ (elim x [ none ↦ 0 | some i ↦ 1 ])
    → (if is_some_zero x then m else 0) ≡ has_joined x
all_told none k b e m h = refl
all_told (some (pos zero)) k b e m h = h
all_told (some (pos (suc j))) k b e m h = refl
all_told (some (negsuc j)) k true e m h = cc
all_told (some (negsuc j)) k false e m h = cc

entry_test : (b : Bool) (k : ℕ) → is_some (if b then some (pos k) else none) ≡ b
entry_test true k = refl
entry_test false k = refl

zero_of : (k : ℕ) → is_zero (pos k) ≡ true → k ≡ 0
zero_of zero h = refl
zero_of (suc k) h = cc

module _ {V : Type 0} ⦃o : Linear V⦄ where
  length-keep_insort :
      (p : NodeId V → Bool) (n : NodeId V) (ns : List (NodeId V))
      → length (keep_if p (insort_left (λ (n : NodeId V). n) n ns)) ≡ length (keep_if p (n ∷ ns))
  length-keep_insort p n [] = rw insort_left-nil refl
  length-keep_insort p n (m ∷ ns) = rw insort_left-cons (elim (Bool-cases (lt m n)) [
    | inl less ↦
        let ih = length-keep_insort p n ns in
        let a = length-keep_if p m (insort_left (λ (n : NodeId V). n) n ns) in
        let b = length-keep_if p n ns in
        let c = length-keep_if p n (m ∷ ns) in
        let d = length-keep_if p m ns in rw less (omega arith)
    | inr more ↦ rw more refl
  ])

  length-keep_sorted :
      (p : NodeId V → Bool) (ns : List (NodeId V))
      → length (keep_if p (sorted (λ (n : NodeId V). n) ns)) ≡ length (keep_if p ns)
  unfolding sorted
  length-keep_sorted p [] = refl
  length-keep_sorted p (n ∷ ns) =
      let ih = length-keep_sorted p ns in
      let a = length-keep_insort p n (sorted (λ (n : NodeId V). n) ns) in
      let b = length-keep_if p n (sorted (λ (n : NodeId V). n) ns) in
      let c = length-keep_if p n ns in omega arith

  -- Every item of a dictionary is what its key gives.
  IsDict-get :
      (d : Dict (NodeId V) ℤ)
      → IsDict d
      → All (λ (item : NodeId V × ℤ). get item.0 d ≡ some item.1) d
  unfolding get
  IsDict-get [] h = tt
  IsDict-get ((k, i) ∷ d) h =
      (rw (beq_refl k) refl, All-map (λ item found. below item found) d (IsDict-get d h.1))
    where
      below :
          (item : NodeId V × ℤ)
          → get item.0 d ≡ some item.1
          → (if k == item.0 then some i else get item.0 d) ≡ some item.1
      below item found = elim (Bool-cases (k == item.0)) [
        | inl same ↦
            let kn : k ≡ item.0 = (eq_node.same_iff k item.0).0 same in
            absurd (let m : some item.1 ≡ none = sym found ∙ ap (λ z. get z d) (sym kn) ∙ h.0 in cc)
        | inr other ↦ rw other found
      ]

  zeros-room :
      (d ds : Dict (NodeId V) ℤ)
      → All (λ (item : NodeId V × ℤ). get item.0 d ≡ some item.1) ds
      → length (keep_if (λ n. is_some_zero (get n d)) (map (λ item. item.0) ds)) + positives ds
        ≤ length ds
  zeros-room d [] a = omega arith
  zeros-room d ((k, i) ∷ ds) a =
      let ih = zeros-room d ds a.1 in
      let l = length-keep_if (λ n. is_some_zero (get n d)) k (map (λ item. item.0) ds) in
      let one = ap (λ z. (if is_some_zero z then 1 else 0) + pends i) a.0 in
      let b = at_most i in omega arith
    where
      at_most : (i : ℤ) → (if is_zero i then 1 else 0) + pends i ≤ 1
      at_most (pos zero) = omega arith
      at_most (pos (suc n)) = omega arith
      at_most (negsuc n) = omega arith

  module _ (nodes : List (NodeEntry V)) (edges : List (EdgeId V)) (d : Dict (NodeId V) ℤ)
      (h : count_edges edges (zeros nodes []) ≡ ok d) where
    first-IsDict : IsDict d
    first-IsDict = count_edges-IsDict edges (zeros nodes []) d h (zeros-IsDict nodes [] tt)

    first_get :
        (n : NodeId V)
        → get n d ≡ (if is_entry n nodes then some (pos (arrivals n edges + 0)) else none)
    unfolding get
    first_get n = elim (Bool-cases (is_entry n nodes)) [
      | inl entry ↦
          rw entry
            (get-count_edges edges (zeros nodes []) d n 0 h (get-zeros n nodes [] ∙ rw entry refl))
      | inr other ↦
          rw other (
            get-count_edges-none edges (zeros nodes []) d n h
              (get-zeros n nodes [] ∙ rw other refl))
    ]

    -- The loop starts in its invariant.
    pub first-IsKahn : IsKahn edges (λ n. is_entry n nodes) (length d) [] d (first_ready d) []
    unfolding first_ready arrivals tally
    first-IsKahn = record {
      bounds = λ n i g.
          let w = waiting-none n edges in bounded n i (is_entry n nodes) (sym (first_get n) ∙ g);
      room =
          let l = length-keep_sorted (λ n. is_some_zero (get n d)) (map (λ item. item.0) d) in
          let r = zeros-room d d (IsDict-get d first-IsDict) in omega arith;
      tallies = λ n.
          let k =
            tally-keep_if (λ n. is_some_zero (get n d)) n
              (sorted (λ (n : NodeId V). n) (map (λ item. item.0) d)) in
          let s = tally-sorted n (map (λ item. item.0) d) in
          let t = tally-keys n d first-IsDict in
          let a =
            all_told (get n d) (arrivals n edges + 0) (is_entry n nodes) (first_get n)
              (tally n (sorted (λ (n : NodeId V). n) (map (λ item. item.0) d))) (s ∙ t) in
          omega arith;
      keys = λ n. ap is_some (first_get n) ∙ entry_test (is_entry n nodes) (arrivals n edges + 0);
      free =
          All-map (λ n z. free_node n (is_entry n nodes) (first_get n) z) (first_ready d)
            (keep_if-holds (λ n. is_some_zero (get n d))
              (sorted (λ (n : NodeId V). n) (map (λ item. item.0) d)));
    }
      where
        bounded :
            (n : NodeId V) (i : ℤ) (b : Bool)
            → (if b then some (pos (arrivals n edges + 0)) else none) ≡ some i
            → AtLeast i (waiting [] n edges + 0)
        bounded n i true g =
            let w = waiting-none n edges in
            subst (λ z. AtLeast z (waiting [] n edges + 0)) (some_inj g) (omega arith)
        bounded n i false g = cc

        free_node :
            (n : NodeId V) (b : Bool)
            → get n d ≡ (if b then some (pos (arrivals n edges + 0)) else none)
            → is_some_zero (get n d) ≡ true
            → waiting [] n edges ≡ 0
        free_node n true g z =
            let w = waiting-none n edges in
            let y = zero_of (arrivals n edges + 0) (sym (ap is_some_zero g) ∙ z) in omega arith
        free_node n false g z = absurd (let m : false ≡ true = sym (ap is_some_zero g) ∙ z in cc)
