-- ===== src/Backend/Indexes.antt =====
-- What the indexes of a built backend hold.
use pyverge.Prelude.{
  ℕ, zero, suc, some_inj, some, List, [], ◌∷◌, ◌++◌, length, ◌≡◌, refl, keep_if, ◌==◌, Bool-cases,
  inl, inr, get_elem?, beq_refl,
}
use pyverge.Prelude.Text.{Text, eq_text}
use pyverge.Prelude.Dict.{Dict, get, set_item, get-set_item}
use pyverge.Prelude.Linear.{Linear}
use pyverge.Prelude.Sorted.{sorted}
use pyverge.Prelude.Groups.{bucket, append_to, group_by, bucket-group_by, bucket-append_to}
use pyverge.Identity.{NodeId, NodeEntry, EdgeId}
use pyverge.Identity.Order.{linear_node, linear_edge, eq_node, eq_edge}
use pyverge.Backend.{
  BuildOptions, build, nodes_for_kind, edges_between, positions, eq_pair, pair_of, index_of,
}

module _ {V : Type 0} ⦃o : Linear V⦄ (nodes : List (NodeEntry V)) (edges : List (EdgeId V))
    (options : BuildOptions V) where
  -- The nodes of a kind are the nodes of the graph that have it, in ascending order.
  pub nodes_for_kind-build :
      (kind : Text)
      → nodes_for_kind (build nodes edges options) kind
        ≡ keep_if (λ n. n.id.kind == kind) (sorted (λ (n : NodeEntry V). n.id) nodes)
  unfolding nodes_for_kind build bucket sorted get
  nodes_for_kind-build kind = bucket-group_by (λ (n : NodeEntry V). n.id.kind) [] _ kind

  -- The edges between two nodes are those of the graph from the one to the other, in order.
  pub edges_between-build :
      (s t : NodeId V)
      → edges_between (build nodes edges options) s t
        ≡ keep_if (λ e. pair_of e == (s, t)) (sorted (λ (e : EdgeId V). e) edges)
  unfolding edges_between build bucket sorted get
  edges_between-build s t = bucket-group_by (λ (e : EdgeId V). pair_of e) [] _ (s, t)

get_elem?-snoc : {A : Type 0} (xs : List A) (x : A) → get_elem? (xs ++ x ∷ []) (length xs) ≡ some x
get_elem?-snoc [] x = refl
get_elem?-snoc (y ∷ xs) x = get_elem?-snoc xs x

get_elem?-append :
    {A : Type 0} (xs ys : List A) (i : ℕ) (x : A)
    → get_elem? xs i ≡ some x
    → get_elem? (xs ++ ys) i ≡ some x
get_elem?-append [] ys i x h = cc
get_elem?-append (y ∷ xs) ys zero x h = h
get_elem?-append (y ∷ xs) ys (suc i) x h = get_elem?-append xs ys i x h

-- Where the loop over the nodes puts each position.
module _ {V : Type 0} ⦃o : Linear V⦄ where
  -- The positions in `d` are right for the buckets in `kinds`.
  abbrev AreRight : Dict Text (List (NodeEntry V)) → Dict (NodeId V) ℕ → Type 0
  AreRight kinds d =
      (n : NodeId V) (i : ℕ)
      → get n d ≡ some i
      → (e : NodeEntry V) × (get_elem? (bucket n.kind kinds) i ≡ some e) × (e.id ≡ n)

  positions_step :
      (m : NodeEntry V) (kinds : Dict Text (List (NodeEntry V))) (d : Dict (NodeId V) ℕ)
      → AreRight kinds d
      → AreRight (append_to m.id.kind m kinds) (set_item m.id (length (bucket m.id.kind kinds)) d)
  positions_step m kinds d right n i h = elim (Bool-cases (m.id == n)) [
    | inl here ↦
        let e : m.id ≡ n = (eq_node.same_iff m.id n).0 here in
        let j : length (bucket m.id.kind kinds) ≡ i = some_inj (rw (get-set_item, here) at h) in
        (
          m,
          rw (← j, ← e, bucket-append_to, beq_refl) (get_elem?-snoc (bucket m.id.kind kinds) m),
          e,
        )
    | inr other ↦
        let old : get n d ≡ some i = rw (get-set_item, other) at h in
        let (x, at_i, same) = right n i old in
        (
          x,
          rw bucket-append_to (elim (Bool-cases (m.id.kind == n.kind)) [
            | inl k ↦ rw k (get_elem?-append (bucket n.kind kinds) (m ∷ []) i x at_i)
            | inr k ↦ rw k at_i
          ]),
          same,
        )
  ]

  positions-AreRight :
      (kinds : Dict Text (List (NodeEntry V))) (d : Dict (NodeId V) ℕ) (ns : List (NodeEntry V))
      → AreRight kinds d
      → AreRight (group_by (λ (n : NodeEntry V). n.id.kind) kinds ns) (positions kinds d ns)
  unfolding positions group_by
  positions-AreRight kinds d [] right = right
  positions-AreRight kinds d (m ∷ ns) right =
      positions-AreRight (append_to m.id.kind m kinds)
        (set_item m.id (length (bucket m.id.kind kinds)) d) ns (positions_step m kinds d right)

  -- The position of a node is its index among the nodes of its kind.
  pub index_of-build :
      (nodes : List (NodeEntry V)) (edges : List (EdgeId V)) (options : BuildOptions V)
      (n : NodeId V) (i : ℕ)
      → index_of (build nodes edges options) n ≡ some i
      → (e : NodeEntry V) × (get_elem? (nodes_for_kind (build nodes edges options) n.kind) i
          ≡ some e)
        × (e.id ≡ n)
  unfolding index_of build nodes_for_kind sorted
  index_of-build nodes edges options n i h =
      positions-AreRight [] [] (sorted (λ (n : NodeEntry V). n.id) nodes)
        (λ n i h. unfold get in cc) n i h
