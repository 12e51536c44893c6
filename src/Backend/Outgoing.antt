-- ===== src/Backend/Outgoing.antt =====
-- The edges that go out of a node of a built backend.
use pyverge.Prelude.{
  List, [], ◌∷◌, ◌≡◌, refl, sym, ap, ◌∙◌, Bool, true, false, ◌==◌, Bool-cases, inl, inr, arith,
  if◌then◌else◌,
}
use pyverge.Prelude.Dict.{Dict, get, set_item, get-set_item}
use pyverge.Prelude.Linear.{Linear, lt}
use pyverge.Prelude.Sorted.{sorted, insort_left, insort_left-nil, insort_left-cons}
use pyverge.Prelude.Groups.{bucket, or_empty, add, contains, contains-add}
use pyverge.Identity.{NodeId, NodeEntry, EdgeId}
use pyverge.Identity.Order.{linear_node, linear_edge, eq_node, eq_edge}
use pyverge.Backend.{BuildOptions, build, edge_sets, at_ends, outgoing}

same_if : {A : Type 0} (b : Bool) (x : A) → (if b then x else x) ≡ x
same_if true x = refl
same_if false x = refl

put :
    (at_node old more : Bool)
    → (if (if at_node then true else old) then true else if at_node then more else false)
      ≡ (if old then true else if at_node then true else false)
put true true more = refl
put true false more = refl
put false true more = refl
put false false more = refl

module _ {V : Type 0} ⦃o : Linear V⦄ where
  contains-insort_left :
      (x e : EdgeId V) (es : List (EdgeId V))
      → contains x (insort_left (λ (e : EdgeId V). e) e es) ≡ contains x (e ∷ es)
  unfolding contains
  contains-insort_left x e [] = rw insort_left-nil refl
  contains-insort_left x e (y ∷ es) = rw insort_left-cons (elim (Bool-cases (lt y e)) [
    | inl less ↦ rw (less, contains-insort_left x e es) (swap (y == x) (e == x))
    | inr more ↦ rw more refl
  ])
    where
      swap :
          (a b : Bool)
          → (if a then true else if b then true else contains x es)
            ≡ (if b then true else if a then true else contains x es)
      swap true true = refl
      swap true false = refl
      swap false true = refl
      swap false false = refl

  pub contains-sorted :
      (x : EdgeId V) (es : List (EdgeId V))
      → contains x (sorted (λ (e : EdgeId V). e) es) ≡ contains x es
  unfolding sorted contains
  contains-sorted x [] = refl
  contains-sorted x (e ∷ es) =
      rw (contains-insort_left x e (sorted (λ (e : EdgeId V). e) es), contains-sorted x es) refl

  -- The set of edges at a node, after an edge has been added at its source.
  bucket-added :
      (x e : EdgeId V) (n : NodeId V) (d : Dict (NodeId V) (List (EdgeId V)))
      → contains x (bucket n (set_item e.source (add e (bucket e.source d)) d)) ≡ (
          if e.source == n
          then (if e == x then true else contains x (bucket n d))
          else contains x (bucket n d))
  unfolding bucket
  bucket-added x e n d = rw get-set_item (elim (Bool-cases (e.source == n)) [
    | inl at_node ↦
        let sn =
          ap (λ z. contains x (add e (or_empty (get z d))))
            ((eq_node.same_iff e.source n).0 at_node) in
        rw at_node (sn ∙ contains-add e x (or_empty (get n d)))
    | inr elsewhere ↦ rw elsewhere refl
  ])

  edge_sets-sources :
      (x : EdgeId V) (n : NodeId V) (d : Dict (NodeId V) (List (EdgeId V))) (es : List (EdgeId V))
      → contains x (bucket n (edge_sets (λ (e : EdgeId V). e.source ∷ []) d es))
        ≡ (if contains x (bucket n d) then true else if x.source == n then contains x es else false)
  unfolding edge_sets at_ends contains
  edge_sets-sources x n d [] = ground arith
  edge_sets-sources x n d (e ∷ es) =
      rw
        (
          edge_sets-sources x n (set_item e.source (add e (bucket e.source d)) d) es,
          bucket-added x e n d,
        )
        (elim (Bool-cases (e == x)) [
          | inl same ↦
              let ex = (eq_edge.same_iff e x).0 same in
              let ends : (x.source == n) ≡ (e.source == n) =
                ap (λ (z : EdgeId V). z.source == n) (sym ex) in
              rw (same, ends) (put (e.source == n) (contains x (bucket n d)) (contains x es))
          | inr other ↦ rw other (rw (same_if (e.source == n) (contains x (bucket n d))) refl)
        ])

  -- The edges that go out of a node are those of the graph that it is the source of.
  pub sorted-outgoing :
      (nodes : List (NodeEntry V)) (edges : List (EdgeId V)) (options : BuildOptions V)
      (x : EdgeId V) (n : NodeId V)
      → contains x (sorted (λ (e : EdgeId V). e) (outgoing (build nodes edges options) n))
        ≡ (if x.source == n then contains x edges else false)
  unfolding outgoing build bucket get contains
  sorted-outgoing nodes edges options x n =
      rw (contains-sorted, edge_sets-sources, contains-sorted) refl
