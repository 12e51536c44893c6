-- ===== src/Search/Walks.antt =====
-- `shortest_path` of a built backend, against the walks along the edges of the graph.
use pyverge.Prelude.{
  suc, ◌≤◌, ◌≡◌, refl, subst, ap, ◌∙◌, ◌⊎◌, inl, inr, Bool, true, false, List, [], ◌∷◌, length,
  Bool-cases, ◌==◌, arith, beq_refl, if◌then◌else◌,
}
use pyverge.Prelude.Linear.{Linear}
use pyverge.Prelude.Groups.{contains}
use pyverge.Identity.{NodeId, NodeEntry, EdgeId}
use pyverge.Identity.Order.{linear_node, linear_edge, eq_node, eq_edge}
use pyverge.Backend.{BuildOptions, build}
use pyverge.Backend.Outgoing.{sorted-outgoing, contains-sorted}
use pyverge.Search.{
  Found, path, no_path, missing, out_of_fuel, first_state, sorted_out, shortest_path,
}
use pyverge.Search.Paths.{IsRoute}
use pyverge.Search.Rounds.{pending}
use pyverge.Search.Shortest.{Answer, search_lem, first-IsSearched}

module _ {V : Type 0} ⦃o : Linear V⦄ where
  -- Allowed edges of the graph, each from where the one before it leads.
  abbrev pub IsWalk :
      List (EdgeId V) → (EdgeId V → Bool) → NodeId V → List (EdgeId V) → NodeId V → Type 0
  IsWalk edges allowed a [] b = a ≡ b
  IsWalk edges allowed a (e ∷ es) b =
      (e.source ≡ a)
      × (contains e edges ≡ true)
      × (allowed e ≡ true)
      × IsWalk edges allowed e.target es b

  pending-length : (seen : List (NodeId V)) (es : List (EdgeId V)) → pending seen es ≤ length es
  pending-length seen [] = omega arith
  pending-length seen (e ∷ es) = let ih = pending-length seen es in ground arith

module _ {V : Type 0} ⦃o : Linear V⦄ (nodes : List (NodeEntry V)) (edges : List (EdgeId V))
    (options : BuildOptions V) (allowed : EdgeId V → Bool) where
  out : NodeId V → List (EdgeId V)
  out = sorted_out (build nodes edges options)

  contains-out :
      (x : EdgeId V) (n : NodeId V)
      → contains x (out n) ≡ (if x.source == n then contains x edges else false)
  unfolding out sorted_out
  contains-out x n = sorted-outgoing nodes edges options x n

  goes_out :
      (n : NodeId V) (e : EdgeId V)
      → contains e (out n) ≡ true
      → (e.source ≡ n) × (contains e edges ≡ true)
  goes_out n e h = elim (Bool-cases (e.source == n)) [
    | inl same ↦ ((eq_node.same_iff e.source n).0 same, rw (contains-out e n, same) at h)
    | inr other ↦ absurd (let m : false ≡ true = rw (contains-out e n, other) at h in cc)
  ]

  IsRoute-IsWalk :
      (a b : NodeId V) (es : List (EdgeId V))
      → IsRoute out allowed a es b
      → IsWalk edges allowed a es b
  IsRoute-IsWalk a b [] r = r
  IsRoute-IsWalk a b (e ∷ es) r =
      let (s, m) = goes_out a e r.0 in (s, m, r.1, IsRoute-IsWalk e.target b es r.2)

  IsWalk-IsRoute :
      (a b : NodeId V) (es : List (EdgeId V))
      → IsWalk edges allowed a es b
      → IsRoute out allowed a es b
  IsWalk-IsRoute a b [] w = w
  IsWalk-IsRoute a b (e ∷ es) (s, m, ok, w) =
      let same : (e.source == a) ≡ true = ap (λ z. z == a) s ∙ beq_refl a in
      (rw (contains-out e a, same) m, ok, IsWalk-IsRoute e.target b es w)

  goes_out_sorted :
      (n : NodeId V) (e : EdgeId V)
      → contains e (out n) ≡ true
      → (e.source ≡ n) × (contains e (build nodes edges options).edges ≡ true)
  unfolding build
  goes_out_sorted n e h = ((goes_out n e h).0, rw (contains-sorted e edges) (goes_out n e h).1)

  answered :
      (s t : NodeId V)
      → Answer out allowed s t
          (build nodes edges options).edges
          goes_out_sorted
          (shortest_path (build nodes edges options) s t allowed)
  unfolding shortest_path out first_state
  answered s t = elim (Bool-cases (s == t)) [
    | inl same ↦
        subst (Answer out allowed s t (build nodes edges options).edges goes_out_sorted)
          (let e : path [] ≡ shortest_path (build nodes edges options) s t allowed =
              rw (shortest_path, same) refl in
            e)
          ((eq_node.same_iff s t).0 same, λ rs r. omega arith)
    | inr other ↦
        let all = pending-length (s ∷ []) (build nodes edges options).edges in
        subst (Answer out allowed s t (build nodes edges options).edges goes_out_sorted)
          (rw (shortest_path, other) refl)
          (search_lem out allowed s t (build nodes edges options).edges goes_out_sorted
            (suc (suc (length (build nodes edges options).edges))) (first_state out allowed s t)
            (first-IsSearched out allowed s t other) (omega arith))
  ]

  least :
      (s t : NodeId V) (f : Found V) (rs : List (EdgeId V))
      → Answer out allowed s t (build nodes edges options).edges goes_out_sorted f
      → IsWalk edges allowed s rs t
      → (es : List (EdgeId V)) × (f ≡ path es)
        × IsWalk edges allowed s es t
        × (length es ≤ length rs)
  least s t (path es) rs (r, short) w =
      (es, refl, IsRoute-IsWalk s t es r, short rs (IsWalk-IsRoute s t rs w))
  least s t no_path rs none_there w = absurd (none_there rs (IsWalk-IsRoute s t rs w))
  least s t missing rs absurd_case w = elim absurd_case [ ]
  least s t out_of_fuel rs absurd_case w = elim absurd_case [ ]

  -- Where some walk along the graph's allowed edges leads from the one node to the other,
  -- `shortest_path` returns such a walk, and no longer one than the given one.
  pub shortest_path-least :
      (s t : NodeId V) (rs : List (EdgeId V))
      → IsWalk edges allowed s rs t
      → (es : List (EdgeId V)) × (shortest_path (build nodes edges options) s t allowed ≡ path es)
        × IsWalk edges allowed s es t
        × (length es ≤ length rs)
  shortest_path-least s t rs w =
      least s t (shortest_path (build nodes edges options) s t allowed) rs (answered s t) w

  ends :
      (s t : NodeId V) (f : Found V)
      → Answer out allowed s t (build nodes edges options).edges goes_out_sorted f
      → (f ≡ no_path) ⊎ (es : List (EdgeId V)) × (f ≡ path es) × IsWalk edges allowed s es t
  ends s t (path es) (r, short) = inr (es, refl, IsRoute-IsWalk s t es r)
  ends s t no_path a = inl refl
  ends s t missing a = elim a [ ]
  ends s t out_of_fuel a = elim a [ ]

  -- `shortest_path` ends on every graph, cyclic ones too: with None, or with a walk along allowed
  -- edges from the one node to the other. No lookup of a predecessor fails.
  pub shortest_path_total :
      (s t : NodeId V)
      → (shortest_path (build nodes edges options) s t allowed ≡ no_path)
        ⊎ (es : List (EdgeId V)) × (shortest_path (build nodes edges options) s t allowed ≡ path es)
          × IsWalk edges allowed s es t
  shortest_path_total s t =
      ends s t (shortest_path (build nodes edges options) s t allowed) (answered s t)
