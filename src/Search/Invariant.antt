-- ===== src/Search/Invariant.antt =====
-- The invariant of the breadth-first loop of `shortest_path`.
use pyverge.Prelude.{
  Eq, ℕ, suc, ◌≤◌, ◌≡◌, refl, sym, subst, ◌⊎◌, inl, inr, Bool, true, false, none, List, [], ◌∷◌,
  length, All, Bool-cases, ◌==◌, arith,
}
use pyverge.Prelude.Dict.{Dict, get, set_item}
use pyverge.Prelude.Linear.{Linear}
use pyverge.Prelude.Groups.{contains}
use pyverge.Identity.{NodeId, EdgeId}
use pyverge.Identity.Order.{linear_node, linear_edge, eq_node, eq_edge}
use pyverge.Search.{State}
use pyverge.Search.Paths.{Traced}

pub length-set_item :
    {K A : Type 0} ⦃e : Eq K⦄ (k : K) (v : A) (d : Dict K A)
    → get k d ≡ none
    → length (set_item k v d) ≡ suc (length d)
unfolding get set_item
length-set_item k v [] h = refl
length-set_item k v ((j, w) ∷ d) h = ground (arith, length-set_item k v d)

module _ {V : Type 0} ⦃o : Linear V⦄ (out : NodeId V → List (EdgeId V)) (allowed : EdgeId V → Bool)
    (start goal : NodeId V) where
  -- The depths do not fall along the deque.
  abbrev pub IsRising : (NodeId V → ℕ) → List (NodeId V) → Type 0
  IsRising depth [] = Unit
  IsRising depth (n ∷ q) = All (λ m. depth n ≤ depth m) q × IsRising depth q

  abbrev pub IsSeen : State V → NodeId V → Type 0
  IsSeen s n = contains n s.seen ≡ true

  -- What the edge leads to has been seen, and lies one edge further at most.
  abbrev pub IsReached : State V → (NodeId V → ℕ) → NodeId V → EdgeId V → Type 0
  IsReached s depth n e = IsSeen s e.target × (depth e.target ≤ suc (depth n))

  -- Every allowed edge of the node has been followed.
  abbrev pub IsClosed : State V → (NodeId V → ℕ) → NodeId V → Type 0
  IsClosed s depth n =
      (e : EdgeId V) → contains e (out n) ≡ true → allowed e ≡ true → IsReached s depth n e

  -- While the edges of `c` are followed, of which `left` are still to come.
  pub record IsScanned (c : NodeId V) (left : List (EdgeId V)) (s : State V) : Type 0 where
    pub depth : NodeId V → ℕ
    pub traced :
        (n : NodeId V)
        → IsSeen s n
        → (es : List (EdgeId V)) × Traced out allowed s.predecessor start n es
          × (length es ≡ depth n)
    pub short : (n : NodeId V) → IsSeen s n → depth n ≤ length s.predecessor
    pub fresh : (n : NodeId V) → contains n s.seen ≡ false → get n s.predecessor ≡ none
    pub goal_unseen : contains goal s.seen ≡ false
    pub start_seen : IsSeen s start
    pub start_depth : depth start ≡ 0
    pub current : IsSeen s c
    pub queued : All (IsSeen s) s.queue
    pub rising : All (λ m. depth c ≤ depth m) s.queue × IsRising depth s.queue
    pub near : (n : NodeId V) → IsSeen s n → depth n ≤ suc (depth c)
    pub half :
        (e : EdgeId V)
        → contains e (out c) ≡ true
        → allowed e ≡ true
        → (contains e left ≡ true) ⊎ IsReached s depth c e
    pub open_or_closed :
        (n : NodeId V) → IsSeen s n → (contains n s.queue ≡ true) ⊎ (IsClosed s depth n ⊎ (n ≡ c))

  -- An edge that is not followed.
  pub skipped :
      (c : NodeId V) (e : EdgeId V) (es : List (EdgeId V)) (s : State V)
      → ((allowed e ≡ true) → IsSeen s e.target)
      → IsScanned c (e ∷ es) s
      → IsScanned c es s
  unfolding contains
  skipped c e es s h i = record {
    depth = i.depth;
    traced = i.traced;
    short = i.short;
    fresh = i.fresh;
    goal_unseen = i.goal_unseen;
    start_seen = i.start_seen;
    start_depth = i.start_depth;
    current = i.current;
    queued = i.queued;
    rising = i.rising;
    near = i.near;
    half = λ x in_out ok. skip x ok (i.half x in_out ok);
    open_or_closed = i.open_or_closed;
  }
    where
      skip :
          (x : EdgeId V)
          → allowed x ≡ true
          → (contains x (e ∷ es) ≡ true) ⊎ IsReached s i.depth c x
          → (contains x es ≡ true) ⊎ IsReached s i.depth c x
      skip x ok (inr r) = inr r
      skip x ok (inl m) = elim (Bool-cases (e == x)) [
        | inl same ↦
            let ex = (eq_edge.same_iff e x).0 same in
            let seen : IsSeen s x.target =
              subst (λ (z : EdgeId V). IsSeen s z.target) ex
                (h (subst (λ (z : EdgeId V). allowed z ≡ true) (sym ex) ok)) in
            inr (seen, i.near x.target seen)
        | inr other ↦ inl (rw other at m)
      ]
