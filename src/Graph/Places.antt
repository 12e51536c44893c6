-- ===== src/Graph/Places.antt =====
-- Where the walk of `MigrationGraph.edge_path` finds its nodes and edges: the positions that
-- `enumerate` gives, and the index by pairs.
use pyverge.Prelude.{
  ℕ, suc, ◌+◌, ◌≡◌, refl, Bool, true, Option, none, some, List, [], ◌∷◌, All, get_elem?, keep_if,
  ◌==◌, arith, Bool-cases, inl, inr, ◌⊎◌, some_inj,
}
use pyverge.Prelude.Text.{eq_text}
use pyverge.Prelude.Dict.{Dict, get, set_item, get-set_item}
use pyverge.Prelude.Linear.{Linear}
use pyverge.Errors.{Fault, ok}
use pyverge.Identity.{NodeId, NodeEntry, EdgeId}
use pyverge.Identity.Order.{linear_node, linear_edge, eq_node, eq_edge}
use pyverge.Backend.{IndexedBackend, edges_between, pair_of, eq_pair, build, BuildOptions}
use pyverge.Backend.Indexes.{edges_between-build}
use pyverge.Graph.{or_raise, positions_from}

-- The index by pairs holds, under each pair, edges of that pair only.
pub record IsIndexed {V : Type 0} ⦃o : Linear V⦄ (b : IndexedBackend V) : Type 0 where
  pub paired : (s t : NodeId V) → All (λ e. pair_of e ≡ (s, t)) (edges_between b s t)

All-keep_if :
    {A B : Type 0} (f : A → B) (p : A → Bool) (b : B)
    → ((x : A) → p x ≡ true → f x ≡ b)
    → (xs : List A) → All (λ x. f x ≡ b) (keep_if p xs)
All-keep_if f p b h [] = tt
All-keep_if f p b h (x ∷ xs) = elim (Bool-cases (p x)) [
  | inl kept ↦ rw kept (h x kept, All-keep_if f p b h xs)
  | inr dropped ↦ rw dropped (All-keep_if f p b h xs)
]

-- Every built backend is so indexed.
pub build-IsIndexed :
    {V : Type 0} ⦃o : Linear V⦄ (nodes : List (NodeEntry V)) (edges : List (EdgeId V))
    (options : BuildOptions V)
    → IsIndexed (build nodes edges options)
build-IsIndexed nodes edges options = record {
  paired = λ s t. rw edges_between-build (
      All-keep_if (λ e. pair_of e) (λ e. pair_of e == (s, t)) (s, t)
        (λ e h. (eq_pair.same_iff (pair_of e) (s, t)).0 h) _);
}

pub or_raise_inv :
    {A : Type 0} (f : Fault) (found : Option A) {t : A} → or_raise f found ≡ ok t → found ≡ some t
or_raise_inv f none h = cc
or_raise_inv f (some x) h = cc

-- The index that `enumerate` gives a node is its index in the list.
module _ {V : Type 0} ⦃o : Linear V⦄ where
  record IsPlaced (n : NodeId V) (ns : List (NodeEntry V)) (i j : ℕ) : Type 0 where
    offset : ℕ
    sum : j ≡ i + offset
    entry : NodeEntry V
    at_offset : get_elem? ns offset ≡ some entry
    named : entry.id ≡ n

  positions_from_lem :
      (n : NodeId V) (j i : ℕ) (dict : Dict (NodeId V) ℕ) (ns : List (NodeEntry V))
      → get n (positions_from i dict ns) ≡ some j
      → (get n dict ≡ some j) ⊎ IsPlaced n ns i j
  unfolding positions_from
  positions_from_lem n j i dict [] h = inl h
  positions_from_lem n j i dict (x ∷ ns) h =
      elim (positions_from_lem n j (suc i) (set_item x.id i dict) ns h) [
        | inl old ↦ elim (Bool-cases (x.id == n)) [
          | inl here ↦
              let e : i ≡ j = some_inj (rw (get-set_item, here) at old) in
              inr (record {
                offset = 0;
                sum = omega arith;
                entry = x;
                at_offset = refl;
                named = (eq_node.same_iff x.id n).0 here;
              })
          | inr other ↦ inl (rw (get-set_item, other) at old)
        ]
        | inr p ↦
            let s = p.sum in
            inr (record {
              offset = suc p.offset;
              sum = omega arith;
              entry = p.entry;
              at_offset = p.at_offset;
              named = p.named;
            })
      ]

  pub placed :
      (n : NodeId V) (j : ℕ) (ns : List (NodeEntry V))
      → get n (positions_from 0 [] ns) ≡ some j
      → (e : NodeEntry V) × (get_elem? ns j ≡ some e) × (e.id ≡ n)
  placed n j ns h = elim (positions_from_lem n j 0 [] ns h) [
    | inl nothing ↦ absurd (unfold get in cc)
    | inr p ↦
        let e : j ≡ p.offset = let s = p.sum in omega arith in (p.entry, rw e p.at_offset, p.named)
  ]
