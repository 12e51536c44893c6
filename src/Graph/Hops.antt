-- ===== src/Graph/Hops.antt =====
-- One hop of `MigrationGraph.edge_path`, and the loop of hops.
use pyverge.Prelude.{
  ℕ, zero, suc, ◌+◌, ◌-◌, ◌≡◌, refl, sym, ◌∙◌, ap, subst, Bool, true, false, Option, none, some,
  List, [], ◌∷◌, length, All, get_elem?, if◌then◌else◌, ◌==◌, ltb, ltb→lt, ltb→ge, arith,
  Bool-cases, inl, inr, some_inj,
}
use pyverge.Prelude.Text.{Text, eq_text}
use pyverge.Prelude.Linear.{Linear}
use pyverge.Errors.{
  ok, err, migration_not_found, migration_path_error, index_error, ◌>>=◌, bind_inv, ok_inj,
}
use pyverge.Identity.{NodeId, NodeEntry, EdgeId}
use pyverge.Identity.Order.{linear_node, linear_edge, eq_node, eq_edge}
use pyverge.Backend.{edges_between, is_executable, pair_of, eq_pair}
use pyverge.Graph.{
  MigrationGraph, or_raise, first_with, find_edge, next_index, hop_error, hop, walk, distance,
}
use pyverge.Graph.Places.{IsIndexed, or_raise_inv}

-- The edges lead from the one node to the other, each from where the one before it ends.
abbrev pub Leads : {V : Type 0} → NodeId V → List (EdgeId V) → NodeId V → Type 0
Leads from [] to = from ≡ to
Leads from (e ∷ path) to = (e.source ≡ from) × Leads e.target path to

-- The index after that many hops.
abbrev pub after : Bool → ℕ → ℕ → ℕ
after up zero lo = lo
after up (suc k) lo = after up k (next_index up lo)

after_up : (k lo : ℕ) → after true k lo ≡ lo + k
after_up zero lo = omega arith
after_up (suc k) lo = omega (arith, after_up k (suc lo))

after_down : (k lo : ℕ) → after false k lo ≡ lo - k
after_down zero lo = omega arith
after_down (suc k) lo = omega (arith, after_down k (lo - 1))

pub after-distance : (lo hi : ℕ) → after (ltb lo hi) (distance lo hi) lo ≡ hi
after-distance lo hi = elim (Bool-cases (ltb lo hi)) [
  | inl up ↦ rw up (let e = after_up (distance lo hi) lo in let m = ltb→lt lo hi up in omega arith)
  | inr down ↦
      rw down (let e = after_down (distance lo hi) lo in let m = ltb→ge lo hi down in omega arith)
]

-- An edge that a walk may use.
abbrev pub IsUsable : {V : Type 0} → ⦃o : Linear V⦄ → MigrationGraph V → Text → EdgeId V → Type 0
IsUsable g d e = (is_executable g.backend e ≡ true) × (e.discriminator ≡ d)

-- Each edge ends at the version beside the last one, in the direction of the walk.
abbrev pub Through : {V : Type 0} → List (NodeEntry V) → Bool → ℕ → List (EdgeId V) → Type 0
Through versions up lo [] = Unit
Through versions up lo (e ∷ path) =
    ((t : NodeEntry _) × (get_elem? versions (next_index up lo) ≡ some t) × (e.target ≡ t.id))
    × Through versions up (next_index up lo) path

module _ {V : Type 0} ⦃o : Linear V⦄ (g : MigrationGraph V) (d : Text)
    (indexed : IsIndexed g.backend) where
  first_with_lem :
      (s t : NodeId V) (es : List (EdgeId V)) (e : EdgeId V)
      → All (λ e. pair_of e ≡ (s, t)) es
      → first_with d es ≡ some e
      → (e.source ≡ s) × (e.target ≡ t) × (e.discriminator ≡ d)
  unfolding first_with
  first_with_lem s t [] e paired h = cc
  first_with_lem s t (x ∷ es) e paired h = elim (Bool-cases (x.discriminator == d)) [
    | inl here ↦
        let same : x ≡ e = some_inj (rw here at h) in
        (
          ap (λ (x : EdgeId V). x.source) (sym same)
              ∙ ap (λ (p : NodeId V × NodeId V). p.0) paired.0,
          ap (λ (x : EdgeId V). x.target) (sym same)
              ∙ ap (λ (p : NodeId V × NodeId V). p.1) paired.0,
          ap (λ (x : EdgeId V). x.discriminator) (sym same)
              ∙ (eq_text.same_iff x.discriminator d).0 here,
        )
    | inr later ↦ first_with_lem s t es e paired.1 (rw later at h)
  ]

  hop_lem :
      (current target : NodeEntry V) (e : EdgeId V)
      → hop g d current target ≡ ok e
      → (e.source ≡ current.id) × (e.target ≡ target.id) × IsUsable g d e
  unfolding hop find_edge
  hop_lem current target e h =
      go (first_with d (edges_between g.backend current.id target.id))
        (first_with_lem current.id target.id _ e (indexed.paired current.id target.id)) h
    where
      go :
          (found : Option (EdgeId V))
          → (found ≡ some e
              → (e.source ≡ current.id) × (e.target ≡ target.id) × (e.discriminator ≡ d))
          → (hop_error (or_raise migration_not_found found) >>= λ edge.
              if is_executable g.backend edge then ok edge else err migration_path_error)
            ≡ ok e
          → (e.source ≡ current.id) × (e.target ≡ target.id) × IsUsable g d e
      go none lem h = cc
      go (some x) lem h = elim (Bool-cases (is_executable g.backend x)) [
        | inl runs ↦
            let same : x ≡ e = ok_inj (rw runs at h) in
            let (source, target, named) = lem (ap some same) in
            (source, target, (rw runs at (ap (λ e. is_executable g.backend e) (sym same)), named))
        | inr idle ↦ let bad = rw idle at h in cc
      ]

  module _ (versions : List (NodeEntry V)) (up : Bool) where
    -- What a walk from `current` gives.
    pub record IsWalk (k lo : ℕ) (current : NodeEntry V) (path : List (EdgeId V)) : Type 0 where
      pub last : NodeEntry V
      pub at_end : get_elem? versions (after up k lo) ≡ some last
      pub leads : Leads current.id path last.id
      pub usable : All (IsUsable g d) path
      pub through : Through versions up lo path
      pub long : length path ≡ k

    pub walk-IsWalk :
        (k lo : ℕ) (current : NodeEntry V) (path : List (EdgeId V))
        → get_elem? versions lo ≡ some current
        → walk g d versions up k lo current ≡ ok path
        → IsWalk k lo current path
    unfolding walk
    walk-IsWalk zero lo current path here h = subst (IsWalk 0 lo current) (ok_inj h) (record {
      last = current;
      at_end = here;
      leads = refl;
      usable = tt;
      through = tt;
      long = refl;
    })
    walk-IsWalk (suc k) lo current path here h =
        let (target, found, h1) =
          bind_inv (or_raise index_error (get_elem? versions (next_index up lo))) _ h in
        let (edge, hopped, h2) = bind_inv (hop g d current target) _ h1 in
        let (rest, walked, h3) = bind_inv (walk g d versions up k (next_index up lo) target) _ h2 in
        let (source, end, fine) = hop_lem current target edge hopped in
        let tail =
          walk-IsWalk k (next_index up lo) target rest (or_raise_inv index_error _ found) walked in
        subst (IsWalk (suc k) lo current) (ok_inj h3) (record {
          last = tail.last;
          at_end = tail.at_end;
          leads = (source, subst (λ n. Leads n rest tail.last.id) (sym end) tail.leads);
          usable = (fine, tail.usable);
          through = ((target, or_raise_inv index_error _ found, end), tail.through);
          long = ap suc tail.long;
        })
