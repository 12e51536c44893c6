-- ===== src/Graph/Usable.antt =====
-- One hop of `MigrationGraph.edge_path` where the graph has an edge for it.
use pyverge.Prelude.{
  ◌≡◌, refl, sym, ap, ◌∙◌, Bool, true, false, some, List, [], ◌∷◌, All, All-map, keep_if,
  keep_if-holds, if◌then◌else◌, ◌==◌, Bool-cases, inl, inr,
}
use pyverge.Prelude.Text.{Text, eq_text}
use pyverge.Prelude.Linear.{Linear}
use pyverge.Prelude.Groups.{contains, add, contains-add}
use pyverge.Prelude.Sorted.{sorted}
use pyverge.Errors.{ok}
use pyverge.Identity.{NodeEntry, EdgeId}
use pyverge.Identity.Order.{linear_node, linear_edge, eq_node, eq_edge}
use pyverge.Backend.{BuildOptions, build, edges_between, is_executable, pair_of, eq_pair, add_all}
use pyverge.Backend.Indexes.{edges_between-build}
use pyverge.Backend.Outgoing.{contains-sorted}
use pyverge.Graph.{Revision, first_with, find_edge, hop}
use pyverge.Graph.Extremes.{built}

edge_ext :
    {V : Type 0} (x e : EdgeId V)
    → x.source ≡ e.source
    → x.target ≡ e.target
    → x.discriminator ≡ e.discriminator
    → x ≡ e
edge_ext x e s t d = λ i. record { source = s i; target = t i; discriminator = d i }

module _ {V : Type 0} ⦃o : Linear V⦄ where
  contains-keep_if :
      (p : EdgeId V → Bool) (e : EdgeId V) (es : List (EdgeId V))
      → p e ≡ true
      → contains e es ≡ true
      → contains e (keep_if p es) ≡ true
  unfolding contains
  contains-keep_if p e [] h m = m
  contains-keep_if p e (x ∷ es) h m = elim (Bool-cases (x == e)) [
    | inl same ↦
        let xe : x ≡ e = (eq_edge.same_iff x e).0 same in
        let px : p x ≡ true = ap p xe ∙ h in rw (px, same) refl
    | inr other ↦
        let rest = contains-keep_if p e es h (rw other at m) in
        elim (Bool-cases (p x)) [ inl kept ↦ rw (kept, other) rest | inr dropped ↦ rw dropped rest ]
  ]

  -- Among the edges of a pair, the discriminator tells the edge.
  first_with_total :
      (e : EdgeId V) (es : List (EdgeId V))
      → All (λ x. pair_of x ≡ pair_of e) es
      → contains e es ≡ true
      → first_with e.discriminator es ≡ some e
  unfolding first_with contains
  first_with_total e [] paired m = cc
  first_with_total e (x ∷ es) paired m = elim (Bool-cases (x.discriminator == e.discriminator)) [
    | inl named ↦
        let same =
          edge_ext x e (ap (λ p. p.0) paired.0) (ap (λ p. p.1) paired.0)
            ((eq_text.same_iff x.discriminator e.discriminator).0 named) in
        rw named (ap some same)
    | inr other ↦ rw other (
        first_with_total e es paired.1 (elim (Bool-cases (x == e)) [
          | inl same ↦
              let xe : x ≡ e = (eq_edge.same_iff x e).0 same in
              let named : (x.discriminator == e.discriminator) ≡ true =
                (eq_text.same_iff x.discriminator e.discriminator).1
                  (ap (λ (z : EdgeId V). z.discriminator) xe) in
              absurd (let z : false ≡ true = sym other ∙ named in cc)
          | inr apart ↦ rw apart at m
        ]))
  ]

  contains-add_all :
      (e : EdgeId V) (s es : List (EdgeId V))
      → (if contains e s then true else contains e es) ≡ true
      → contains e (add_all s es) ≡ true
  unfolding add_all contains
  contains-add_all e s [] h = elim (Bool-cases (contains e s)) [
    | inl there ↦ there
    | inr missing ↦ absurd (let z : false ≡ true = rw missing at h in cc)
  ]
  contains-add_all e s (x ∷ es) h =
      contains-add_all e (add x s) es
        (rw (contains-add x e s) (turn (x == e) (contains e s) (contains e es) h))
    where
      turn :
          (a b c : Bool)
          → (if b then true else if a then true else c) ≡ true
          → (if if a then true else b then true else c) ≡ true
      turn true b c h = refl
      turn false true c h = refl
      turn false false c h = h

  module _ (edges : List (EdgeId V)) (options : BuildOptions V) where
    -- An edge of the graph, listed as executable, that leads from the one version to the other.
    pub record IsEdgeFor (d : Text) (a b : NodeEntry V) (e : EdgeId V) : Type 0 where
      pub there : contains e edges ≡ true
      pub source : e.source ≡ a.id
      pub target : e.target ≡ b.id
      pub named : e.discriminator ≡ d
      pub runs : contains e options.executable_edge_ids ≡ true

  module _ (nodes : List (NodeEntry V)) (edges : List (EdgeId V)) (options : BuildOptions V) where
    runs_lem :
        (e : EdgeId V)
        → contains e options.executable_edge_ids ≡ true
        → is_executable (build nodes edges options) e ≡ true
    unfolding is_executable build contains
    runs_lem e h = contains-add_all e [] options.executable_edge_ids h

    found_lem :
        (d : Text) (a b : NodeEntry V) (e : EdgeId V)
        → IsEdgeFor edges options d a b e
        → first_with d (edges_between (build nodes edges options) a.id b.id) ≡ some e
    found_lem d a b e i =
        let between : pair_of e ≡ (a.id, b.id) = λ k. (i.source k, i.target k) in
        let test = λ (x : EdgeId V). pair_of x == (a.id, b.id) in
        let all = sorted (λ (x : EdgeId V). x) edges in
        let mine : test e ≡ true = (eq_pair.same_iff (pair_of e) (a.id, b.id)).1 between in
        let paired =
          All-map (λ x h. (eq_pair.same_iff (pair_of x) (a.id, b.id)).0 h ∙ sym between)
            (keep_if test all) (keep_if-holds test all) in
        let listed = contains-keep_if test e all mine (contains-sorted e edges ∙ i.there) in
        ap (first_with d) (edges_between-build nodes edges options a.id b.id)
        ∙ ap (λ t. first_with t (keep_if test all)) (sym i.named)
        ∙ first_with_total e (keep_if test all) paired listed

    pub hop_total :
        (revision : Revision) (digest d : Text) (a b : NodeEntry V) (e : EdgeId V)
        → IsEdgeFor edges options d a b e
        → hop (built nodes edges options revision digest) d a b ≡ ok e
    unfolding hop find_edge
    hop_total revision digest d a b e i = rw (found_lem d a b e i, runs_lem e i.runs) refl
