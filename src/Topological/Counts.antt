-- ===== src/Topological/Counts.antt =====
-- How often nodes and edges occur, and what the counters of the sort hold.
use pyverge.Prelude.{
  Eq, ℕ, zero, suc, ◌+◌, ◌≤◌, ◌≡◌, refl, sym, ap, ◌∙◌, Bool, true, Option, none, some, List, [],
  ◌∷◌, ◌++◌, length, map, keep_if, Bool-cases, inl, inr, ◌==◌, arith, if◌then◌else◌, some_inj,
}
use pyverge.Prelude.Int.{ℤ, pos, negsuc}
use pyverge.Prelude.Dict.{Dict, get, set_item}
use pyverge.Prelude.Keys.{IsDict}
use pyverge.Prelude.Linear.{Linear, lt}
use pyverge.Prelude.Sorted.{sorted, insort_left, insort_left-nil, insort_left-cons}
use pyverge.Prelude.Groups.{contains, contains-append}
use pyverge.Identity.{NodeId, EdgeId}
use pyverge.Identity.Order.{linear_node, linear_edge, eq_node}
use pyverge.Topological.{minus_one, is_zero}

-- A counter at zero or below is that of a node that has joined the deque.
abbrev pub joined : ℤ → ℕ
joined (pos zero) = 1
joined (pos (suc n)) = 0
joined (negsuc n) = 1

abbrev pub has_joined : Option ℤ → ℕ
has_joined none = 0
has_joined (some i) = joined i

abbrev pub AtLeast : ℤ → ℕ → Type 0
AtLeast (pos k) w = w ≤ k
AtLeast (negsuc k) w = w ≤ 0

pub AtLeast-trans : (i : ℤ) (v w : ℕ) → AtLeast i w → v ≤ w → AtLeast i v
AtLeast-trans (pos k) v w h l = omega arith
AtLeast-trans (negsuc k) v w h l = omega arith

pub AtLeast-minus_one : (i : ℤ) (w : ℕ) → AtLeast i (suc w) → AtLeast (minus_one i) w
AtLeast-minus_one (pos zero) w h = absurd (omega arith)
AtLeast-minus_one (pos (suc k)) w h = omega arith
AtLeast-minus_one (negsuc k) w h = absurd (omega arith)

pub AtLeast-zero : (i : ℤ) (w : ℕ) → is_zero i ≡ true → AtLeast i w → w ≡ 0
AtLeast-zero (pos zero) w z h = omega arith
AtLeast-zero (pos (suc k)) w z h = cc
AtLeast-zero (negsuc k) w z h = cc

-- A counter above zero.
abbrev pub pends : ℤ → ℕ
pends (pos zero) = 0
pends (pos (suc n)) = 1
pends (negsuc n) = 0

abbrev pub positives : {K : Type 0} → Dict K ℤ → ℕ
positives [] = 0
positives ((k, i) ∷ d) = pends i + positives d

module _ {K : Type 0} ⦃e : Eq K⦄ where
  pub positives-set_item :
      (k : K) (i j : ℤ) (d : Dict K ℤ)
      → get k d ≡ some i
      → positives (set_item k j d) + pends i ≡ positives d + pends j
  unfolding get set_item
  positives-set_item k i j [] h = cc
  positives-set_item k i j ((m, w) ∷ d) h = elim (Bool-cases (m == k)) [
    | inl same ↦ let wi : w ≡ i = some_inj (rw same at h) in rw (same, wi) (omega arith)
    | inr other ↦ let ih = positives-set_item k i j d (rw other at h) in rw other (omega arith)
  ]

  pub length-set_old :
      (k : K) (i j : ℤ) (d : Dict K ℤ) → get k d ≡ some i → length (set_item k j d) ≡ length d
  unfolding get set_item
  length-set_old k i j [] h = cc
  length-set_old k i j ((m, w) ∷ d) h = elim (Bool-cases (m == k)) [
    | inl same ↦ rw same refl
    | inr other ↦ let ih = length-set_old k i j d (rw other at h) in rw other (omega arith)
  ]

  -- How often an item stands in a list.
  unfoldable pub tally : K → List K → ℕ
  tally k [] = 0
  tally k (x ∷ xs) = let rest = tally k xs in if x == k then suc rest else rest

  pub tally-append : (k : K) (xs ys : List K) → tally k (xs ++ ys) ≡ tally k xs + tally k ys
  unfolding tally
  tally-append k [] ys = omega arith
  tally-append k (x ∷ xs) ys = let ih = tally-append k xs ys in ground arith

  pub tally-keep_if :
      (p : K → Bool) (k : K) (xs : List K)
      → tally k (keep_if p xs) ≡ (if p k then tally k xs else 0)
  unfolding tally
  tally-keep_if p k [] = ground arith
  tally-keep_if p k (x ∷ xs) = elim (Bool-cases (x == k)) [
    | inl same ↦
        let xk = (e.same_iff x k).0 same in
        let ih = tally-keep_if p k xs in rw (same, ap p xk) (ground (arith, same))
    | inr other ↦ let ih = tally-keep_if p k xs in ground (arith, other)
  ]

  pub tally-keys :
      (k : K) (d : Dict K ℤ)
      → IsDict d
      → tally k (map (λ item. item.0) d) ≡ (elim (get k d) [ none ↦ 0 | some i ↦ 1 ])
  unfolding tally get
  tally-keys k [] h = refl
  tally-keys k ((m, w) ∷ d) h = elim (Bool-cases (m == k)) [
    | inl same ↦
        let mk = (e.same_iff m k).0 same in
        let gone : get k d ≡ none = ap (λ z. get z d) (sym mk) ∙ h.0 in
        let ih = tally-keys k d h.1 in rw same (ap suc (ih ∙ rw gone refl))
    | inr other ↦ rw other (tally-keys k d h.1)
  ]

module _ {V : Type 0} ⦃o : Linear V⦄ where
  -- How many of the edges lead to the node.
  unfoldable pub arrivals : NodeId V → List (EdgeId V) → ℕ
  arrivals n [] = 0
  arrivals n (e ∷ es) = let rest = arrivals n es in if e.target == n then suc rest else rest

  -- How many of them come from a node that is not done.
  unfoldable pub waiting : List (NodeId V) → NodeId V → List (EdgeId V) → ℕ
  waiting done n [] = 0
  waiting done n (e ∷ es) =
      let rest = waiting done n es in
      if e.target == n then (if contains e.source done then rest else suc rest) else rest

  pub waiting-none : (n : NodeId V) (es : List (EdgeId V)) → waiting [] n es ≡ arrivals n es
  unfolding waiting arrivals contains
  waiting-none n [] = refl
  waiting-none n (e ∷ es) = let ih = waiting-none n es in ground arith

  pub waiting-snoc :
      (done : List (NodeId V)) (c n : NodeId V) (es : List (EdgeId V))
      → waiting (done ++ c ∷ []) n es ≤ waiting done n es
  unfolding waiting
  waiting-snoc done c n [] = omega arith
  waiting-snoc done c n (e ∷ es) =
      let ih = waiting-snoc done c n es in
      rw (contains-append e.source done (c ∷ [])) (ground arith)

  tally-insort_left :
      (n m : NodeId V) (ns : List (NodeId V))
      → tally n (insort_left (λ (n : NodeId V). n) m ns) ≡ tally n (m ∷ ns)
  unfolding tally
  tally-insort_left n m [] = rw insort_left-nil refl
  tally-insort_left n m (y ∷ ns) = rw insort_left-cons (elim (Bool-cases (lt y m)) [
    | inl less ↦ let ih = tally-insort_left n m ns in rw less (ground arith)
    | inr more ↦ rw more refl
  ])

  pub tally-sorted :
      (n : NodeId V) (ns : List (NodeId V)) → tally n (sorted (λ (n : NodeId V). n) ns) ≡ tally n ns
  unfolding tally sorted
  tally-sorted n [] = refl
  tally-sorted n (m ∷ ns) =
      let ih = tally-sorted n ns in
      rw (tally-insort_left n m (sorted (λ (n : NodeId V). n) ns), ih) refl
