-- ===== src/Search/Shortest.antt =====
-- The breadth-first loop of `shortest_path` and the routes of a graph.
use mathlib.Core.List.{append-nil}
use pyverge.Prelude.{
  ℕ, zero, suc, ◌≤◌, ◌<◌, ◌≡◌, refl, sym, subst, ap, ◌∙◌, ◌⊎◌, inl, inr, Bool, true, false, none,
  List, [], ◌∷◌, length, All, Bool-cases, ◌==◌, arith, beq_refl, if◌then◌else◌,
}
use pyverge.Prelude.Dict.{Dict, get}
use pyverge.Prelude.Linear.{Linear}
use pyverge.Prelude.Groups.{contains}
use pyverge.Identity.{NodeId, EdgeId}
use pyverge.Identity.Order.{linear_node, linear_edge, eq_node, eq_edge}
use pyverge.Search.{
  State, Found, path, no_path, missing, out_of_fuel, Scanned, met, left, scan, search, first_state,
  reconstruct,
}
use pyverge.Search.Paths.{Traced, here, IsRoute, Traced-IsRoute, reconstruct-Traced}
use pyverge.Search.Invariant.{IsSeen, IsScanned, IsClosed, IsRising}
use pyverge.Search.Rounds.{work, Outcome, scan_lem}

module _ {V : Type 0} ⦃o : Linear V⦄ (out : NodeId V → List (EdgeId V)) (allowed : EdgeId V → Bool)
    (start goal : NodeId V) where
  -- All that has been seen lies one edge beyond the next node at most.
  abbrev pub IsAhead : (NodeId V → ℕ) → State V → List (NodeId V) → Type 0
  IsAhead depth s [] = Unit
  IsAhead depth s (c ∷ q) =
      (n : NodeId V) → IsSeen out allowed start goal s n → depth n ≤ suc (depth c)

  -- Between two rounds.
  pub record IsSearched (s : State V) : Type 0 where
    pub depth : NodeId V → ℕ
    pub traced :
        (n : NodeId V)
        → IsSeen out allowed start goal s n
        → (es : List (EdgeId V)) × Traced out allowed s.predecessor start n es
          × (length es ≡ depth n)
    pub short : (n : NodeId V) → IsSeen out allowed start goal s n → depth n ≤ length s.predecessor
    pub fresh : (n : NodeId V) → contains n s.seen ≡ false → get n s.predecessor ≡ none
    pub goal_unseen : contains goal s.seen ≡ false
    pub start_seen : IsSeen out allowed start goal s start
    pub start_depth : depth start ≡ 0
    pub queued : All (IsSeen out allowed start goal s) s.queue
    pub rising : IsRising out allowed start goal depth s.queue
    pub ahead : IsAhead depth s s.queue
    pub open_or_closed :
        (n : NodeId V)
        → IsSeen out allowed start goal s n
        → (contains n s.queue ≡ true) ⊎ IsClosed out allowed start goal s depth n

  -- The next node is taken from the deque.
  taken :
      (s : State V) (i : IsSearched s) (c : NodeId V) (rest : List (NodeId V))
      → s.queue ≡ c ∷ rest
      → IsScanned out allowed start goal c (out c) (record s { queue = rest })
  unfolding contains
  taken s i c rest h =
      let queued = rw h at i.queued in
      let rising = rw h at i.rising in
      let ahead = rw h at i.ahead in
      record {
        depth = i.depth;
        traced = i.traced;
        short = i.short;
        fresh = i.fresh;
        goal_unseen = i.goal_unseen;
        start_seen = i.start_seen;
        start_depth = i.start_depth;
        current = queued.0;
        queued = queued.1;
        rising = rising;
        near = ahead;
        half = λ x goes_out ok. inl goes_out;
        open_or_closed = λ n seen. elim (i.open_or_closed n seen) [
          | inl waits ↦ elim (Bool-cases (c == n)) [
            | inl same ↦ inr (inr (sym ((eq_node.same_iff c n).0 same)))
            | inr other ↦ inl (rw (h, other) at waits)
          ]
          | inr closed ↦ inr (inl closed)
        ];
      }

  -- All edges of the node have been followed.
  done : (c : NodeId V) (s : State V) → IsScanned out allowed start goal c [] s → IsSearched s
  unfolding contains
  done c s i = record {
    depth = i.depth;
    traced = i.traced;
    short = i.short;
    fresh = i.fresh;
    goal_unseen = i.goal_unseen;
    start_seen = i.start_seen;
    start_depth = i.start_depth;
    queued = i.queued;
    rising = i.rising.1;
    ahead = before s.queue i.rising.0;
    open_or_closed = λ n seen. elim (i.open_or_closed n seen) [
      | inl waits ↦ inl waits
      | inr (inl closed) ↦ inr closed
      | inr (inr self) ↦ inr (λ x goes_out ok.
          elim (i.half x (subst (λ z. contains x (out z) ≡ true) self goes_out) ok) [
            | inl m ↦ absurd cc
            | inr r ↦ (r.0, let d = ap i.depth self in let k = r.1 in omega arith)
          ])
    ];
  }
    where
      before : (q : List (NodeId V)) → All (λ m. i.depth c ≤ i.depth m) q → IsAhead i.depth s q
      before [] a = tt
      before (m ∷ q) a = λ n seen. let d = i.near n seen in let k = a.0 in omega arith

  -- With nothing left in the deque, no route leads to the goal.
  exhausted :
      (s : State V) (i : IsSearched s) (v : NodeId V) (rs : List (EdgeId V))
      → s.queue ≡ []
      → IsSeen out allowed start goal s v
      → ¬ IsRoute out allowed v rs goal
  unfolding contains
  exhausted s i v [] h seen r =
      let m : false ≡ true = sym i.goal_unseen ∙ ap (λ z. contains z s.seen) (sym r) ∙ seen in cc
  exhausted s i v (x ∷ rs) h seen r = elim (i.open_or_closed v seen) [
    | inl waits ↦ let m = rw h at waits in cc
    | inr closed ↦ exhausted s i x.target rs h (closed x r.0 r.1).0 r.2
  ]

  pub first-IsSearched : (start == goal) ≡ false → IsSearched (first_state out allowed start goal)
  unfolding first_state contains get
  first-IsSearched h = record {
    depth = λ _. 0;
    traced = λ n seen. ([], subst (λ z. Traced out allowed [] start z []) (only n seen) here, refl);
    short = λ n seen. omega arith;
    fresh = λ n new. refl;
    goal_unseen = rw h refl;
    start_seen = rw (beq_refl start) refl;
    start_depth = refl;
    queued = (rw (beq_refl start) refl, tt);
    rising = (tt, tt);
    ahead = λ n seen. omega arith;
    open_or_closed = λ n seen. inl seen;
  }
    where
      only : (n : NodeId V) → (if start == n then true else false) ≡ true → start ≡ n
      only n seen = elim (Bool-cases (start == n)) [
        | inl same ↦ (eq_node.same_iff start n).0 same
        | inr other ↦ absurd (let m = rw other at seen in cc)
      ]

  module _ (edges : List (EdgeId V))
      (outs : (n : NodeId V) (e : EdgeId V)
        → contains e (out n) ≡ true
        → (e.source ≡ n) × (contains e edges ≡ true)) where
    -- A shortest route, or none where there is none.
    abbrev pub Answer : Found V → Type 0
    Answer (path es) =
        IsRoute out allowed start es goal
        × ((rs : List (EdgeId V)) → IsRoute out allowed start rs goal → length es ≤ length rs)
    Answer no_path = (rs : List (EdgeId V)) → ¬ IsRoute out allowed start rs goal
    Answer missing = ⊥
    Answer out_of_fuel = ⊥

    found :
        (p : Dict (NodeId V) (EdgeId V)) (c : NodeId V) (bound : ℕ)
        → Outcome out allowed start goal edges outs c bound (met p)
        → Answer (reconstruct (suc (length p)) p start goal [])
    found p c bound (fs, t, fits, least) =
        subst Answer
          (ap path (sym (append-nil fs))
            ∙ sym (reconstruct-Traced out allowed p start (suc (length p)) [] t (omega arith)))
          (Traced-IsRoute out allowed p start t, least)

    -- What follows a round, where the rest of the loop is right.
    after :
        (n : ℕ)
        → ((s : State V)
            → IsSearched s
            → work out allowed start goal edges outs s < n
            → Answer (search out allowed start goal n s))
        → (c : NodeId V) (bound : ℕ) (r : Scanned V)
        → Outcome out allowed start goal edges outs c bound r
        → bound < n
        → Answer (elim r [
          | met p ↦ reconstruct (suc (length p)) p start goal []
          | left s ↦ search out allowed start goal n s
        ])
    after n ih c bound (met p) k b = found p c bound k
    after n ih c bound (left s) k b = ih s (done c s k.0) (let w = k.1 in omega arith)

    pub search_lem :
        (n : ℕ) (s : State V)
        → IsSearched s
        → work out allowed start goal edges outs s < n
        → Answer (search out allowed start goal n s)
    unfolding search
    search_lem zero s i h = absurd (omega arith)
    search_lem (suc n) s i h = go (λ s i h. search_lem n s i h) s.queue refl
      where
        go :
            ((s : State V)
              → IsSearched s
              → work out allowed start goal edges outs s < n
              → Answer (search out allowed start goal n s))
            → (q : List (NodeId V)) → s.queue ≡ q
            → Answer (search out allowed start goal (suc n) s)
        go ih [] e =
            let ends : no_path ≡ search out allowed start goal (suc n) s = rw (search, e) refl in
            subst Answer ends (λ rs r. exhausted s i start rs e i.start_seen r)
        go ih (c ∷ rest) e =
            let popped : State V = record s { queue = rest } in
            let shorter = ap length e in
            let bound = work out allowed start goal edges outs popped in
            let round = scan out allowed start goal (out c) popped in
            let goes_on : elim round [
              | met p ↦ reconstruct (suc (length p)) p start goal []
              | left s' ↦ search out allowed start goal n s'
            ]
                ≡ search out allowed start goal (suc n) s =
              rw (search, e) refl in
            subst Answer goes_on (
              after n ih c bound round
                (scan_lem out allowed start goal edges outs c (out c) popped bound (λ x m. m)
                  (taken s i c rest e) (omega arith))
                (omega arith))
