-- ===== src/Topological/Degrees.antt =====
-- How `topological_sort` sets the counters of the nodes.
use pyverge.Prelude.{
  ℕ, suc, ◌+◌, ◌≡◌, refl, sym, ap, ◌∙◌, Bool, true, false, none, some, List, [], ◌∷◌, Bool-cases,
  inl, inr, Option-cases, ◌==◌, arith, if◌then◌else◌, some_inj,
}
use pyverge.Prelude.Int.{ℤ, pos}
use pyverge.Prelude.Dict.{Dict, get, set_item, get-set_item}
use pyverge.Prelude.Keys.{IsDict, set_item-IsDict}
use pyverge.Prelude.Linear.{Linear}
use pyverge.Errors.{ok, ok_inj}
use pyverge.Identity.{NodeId, NodeEntry, EdgeId}
use pyverge.Identity.Order.{linear_node, linear_edge, eq_node}
use pyverge.Topological.{zeros, count_edges, plus_one}
use pyverge.Topological.Counts.{arrivals}

some-none : {A : Type 0} {x : A} → some x ≡ none → ⊥
some-none h = cc

module _ {V : Type 0} ⦃o : Linear V⦄ where
  pub zeros-IsDict :
      (ns : List (NodeEntry V)) (d : Dict (NodeId V) ℤ) → IsDict d → IsDict (zeros ns d)
  unfolding zeros
  zeros-IsDict [] d h = h
  zeros-IsDict (n ∷ ns) d h = zeros-IsDict ns _ (set_item-IsDict n.id (pos 0) d h)

  pub count_edges-IsDict :
      (es : List (EdgeId V)) (d d' : Dict (NodeId V) ℤ)
      → count_edges es d ≡ ok d'
      → IsDict d
      → IsDict d'
  unfolding count_edges
  count_edges-IsDict [] d d' h k = rw (ok_inj h) at k
  count_edges-IsDict (e ∷ es) d d' h k = elim (Option-cases (get e.target d)) [
    | inl missing ↦ absurd (let m = rw (count_edges, missing) at h in cc)
    | inr (i, found) ↦
        count_edges-IsDict es (set_item e.target (plus_one i) d) d' (rw (count_edges, found) at h)
          (set_item-IsDict e.target (plus_one i) d k)
  ]

  -- A counter that stands at zero or above is raised by the edges that lead to its node.
  pub get-count_edges :
      (es : List (EdgeId V)) (d d' : Dict (NodeId V) ℤ) (n : NodeId V) (k : ℕ)
      → count_edges es d ≡ ok d'
      → get n d ≡ some (pos k)
      → get n d' ≡ some (pos (arrivals n es + k))
  unfolding count_edges arrivals
  get-count_edges [] d d' n k h g =
      let same : k ≡ 0 + k = omega arith in rw (← ok_inj h) (g ∙ ap (λ m. some (pos m)) same)
  get-count_edges (e ∷ es) d d' n k h g = elim (Option-cases (get e.target d)) [
    | inl missing ↦ absurd (let m = rw (count_edges, missing) at h in cc)
    | inr (i, found) ↦
        let rest = rw (count_edges, found) at h in
        elim (Bool-cases (e.target == n)) [
          | inl same ↦
              let tn : e.target ≡ n = (eq_node.same_iff e.target n).0 same in
              let ik : i ≡ pos k = some_inj (sym found ∙ ap (λ z. get z d) tn ∙ g) in
              let raised : get n (set_item e.target (plus_one i) d) ≡ some (pos (suc k)) =
                rw (get-set_item, same, ik) refl in
              let ih =
                get-count_edges es (set_item e.target (plus_one i) d) d' n (suc k) rest raised in
              let shift : arrivals n es + suc k ≡ suc (arrivals n es) + k = omega arith in
              rw same (ih ∙ ap (λ m. some (pos m)) shift)
          | inr other ↦
              let kept : get n (set_item e.target (plus_one i) d) ≡ some (pos k) =
                rw (get-set_item, other) g in
              rw other (get-count_edges es (set_item e.target (plus_one i) d) d' n k rest kept)
        ]
  ]

  pub get-count_edges-none :
      (es : List (EdgeId V)) (d d' : Dict (NodeId V) ℤ) (n : NodeId V)
      → count_edges es d ≡ ok d'
      → get n d ≡ none
      → get n d' ≡ none
  unfolding count_edges
  get-count_edges-none [] d d' n h g = rw (ok_inj h) at g
  get-count_edges-none (e ∷ es) d d' n h g = elim (Option-cases (get e.target d)) [
    | inl missing ↦ absurd (let m = rw (count_edges, missing) at h in cc)
    | inr (i, found) ↦
        get-count_edges-none es (set_item e.target (plus_one i) d) d' n
          (rw (count_edges, found) at h)
          (rw get-set_item (elim (Bool-cases (e.target == n)) [
            | inl same ↦
                let tn : e.target ≡ n = (eq_node.same_iff e.target n).0 same in
                absurd (some-none (sym found ∙ ap (λ z. get z d) tn ∙ g))
            | inr other ↦ rw other g
          ]))
  ]

  -- Whether one of the entries has the identity.
  unfoldable pub is_entry : NodeId V → List (NodeEntry V) → Bool
  is_entry n [] = false
  is_entry n (m ∷ ms) = if m.id == n then true else is_entry n ms

  pub get-zeros :
      (n : NodeId V) (ns : List (NodeEntry V)) (d : Dict (NodeId V) ℤ)
      → get n (zeros ns d) ≡ (if is_entry n ns then some (pos 0) else get n d)
  unfolding zeros is_entry
  get-zeros n [] d = refl
  get-zeros n (m ∷ ns) d =
      rw (get-zeros n ns (set_item m.id (pos 0) d), get-set_item)
        (joined_tests (m.id == n) (is_entry n ns))
    where
      joined_tests :
          (a b : Bool)
          → (if b then some (pos 0) else if a then some (pos 0) else get n d)
            ≡ (if if a then true else b then some (pos 0) else get n d)
      joined_tests true true = refl
      joined_tests true false = refl
      joined_tests false true = refl
      joined_tests false false = refl
