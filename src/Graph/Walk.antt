-- ===== src/Graph/Walk.antt =====
-- `MigrationGraph.edge_path`: the walk that it returns.
use pyverge.Prelude.{
  ℕ, ◌≡◌, sym, ◌∙◌, ap, subst, some, List, [], length, All, get_elem?, if◌then◌else◌, nat_eq, ltb,
  arith, Bool-cases, inl, inr, some_inj,
}
use pyverge.Prelude.Text.{Text, eq_text, text_eq}
use pyverge.Prelude.Dict.{get}
use pyverge.Prelude.Linear.{Linear}
use pyverge.Errors.{ok, migration_path_error, index_error, ◌>>=◌, bind_inv}
use pyverge.Identity.{NodeId, NodeEntry, EdgeId}
use pyverge.Identity.Order.{linear_node, linear_edge, eq_node, eq_edge}
use pyverge.Backend.{eq_pair}
use pyverge.Graph.{
  MigrationGraph, or_raise, positions_from, walk, distance, edge_path, kind_versions,
}
use pyverge.Graph.Places.{IsIndexed, placed, or_raise_inv}
use pyverge.Graph.Hops.{Leads, IsUsable, Through, walk-IsWalk, after-distance}

module _ {V : Type 0} ⦃o : Linear V⦄ (g : MigrationGraph V) (d : Text)
    (indexed : IsIndexed g.backend) where
  -- What `edge_path` returns: the two versions are registered models of one kind, and the edges
  -- lead from the one to the other through every version between them, in order.
  pub record IsEdgePath (from to : NodeId V) (path : List (EdgeId V)) : Type 0 where
    pub kinds : from.kind ≡ to.kind
    pub lo : ℕ
    pub hi : ℕ
    pub start : NodeEntry V
    pub end : NodeEntry V
    pub at_lo : get_elem? (kind_versions g from.kind) lo ≡ some start
    pub at_hi : get_elem? (kind_versions g from.kind) hi ≡ some end
    pub start_id : start.id ≡ from
    pub end_id : end.id ≡ to
    pub leads : Leads from path to
    pub usable : All (IsUsable g d) path
    pub through : Through (kind_versions g from.kind) (ltb lo hi) lo path
    pub long : length path ≡ distance lo hi

  module _ (from to : NodeId V) (path : List (EdgeId V)) (kinds : from.kind ≡ to.kind)
      (lo hi : ℕ) where
    abbrev versions : List (NodeEntry V)
    versions = kind_versions g from.kind

    walked :
        (start : NodeEntry V)
        → get_elem? versions lo ≡ some start
        → (if nat_eq lo hi
            then ok []
            else or_raise index_error (get_elem? versions lo) >>= λ current.
                walk g d versions (ltb lo hi) (distance lo hi) lo current)
          ≡ ok path
        → walk g d versions (ltb lo hi) (distance lo hi) lo start ≡ ok path
    unfolding walk
    walked start at_lo h = elim (Bool-cases (nat_eq lo hi)) [
      | inl same ↦ let z : distance lo hi ≡ 0 = ground arith in rw z (rw same at h)
      | inr apart ↦ let h' = rw apart at h in rw at_lo at h'
    ]

    between :
        (start end : NodeEntry V)
        → get_elem? versions lo ≡ some start
        → get_elem? versions hi ≡ some end
        → start.id ≡ from
        → end.id ≡ to
        → walk g d versions (ltb lo hi) (distance lo hi) lo start ≡ ok path
        → IsEdgePath from to path
    between start end at_lo at_hi start_id end_id h =
        let w =
          walk-IsWalk g d indexed versions (ltb lo hi) (distance lo hi) lo start path at_lo h in
        let last_end : w.last ≡ end = some_inj (sym (w.at_end) ∙ rw (after-distance lo hi) at_hi) in
        record {
          kinds = kinds;
          lo = lo;
          hi = hi;
          start = start;
          end = end;
          at_lo = at_lo;
          at_hi = at_hi;
          start_id = start_id;
          end_id = end_id;
          leads =
              subst (λ n. Leads n path to) start_id
                (subst (λ n. Leads start.id path n)
                  (ap (λ (e : NodeEntry V). e.id) last_end ∙ end_id) w.leads);
          usable = w.usable;
          through = w.through;
          long = w.long;
        }

  -- In a graph whose index by pairs holds edges of each pair only, a returned path joins two
  -- registered models of one kind: its edges lead from the one to the
  -- other through every version between them in turn, forwards or backwards, so none is skipped,
  -- and each edge is executable and has the discriminator.
  pub edge_path-IsEdgePath :
      (from to : NodeId V) (path : List (EdgeId V))
      → edge_path g from to d ≡ ok path
      → IsEdgePath from to path
  unfolding edge_path
  edge_path-IsEdgePath from to path h = elim (Bool-cases (text_eq from.kind to.kind)) [
    | inl same ↦
        let (lo, found_lo, h1) =
          bind_inv
            (or_raise migration_path_error
              (get from (positions_from 0 [] (kind_versions g from.kind))))
            _ (rw same at h) in
        let (hi, found_hi, h2) =
          bind_inv
            (or_raise migration_path_error
              (get to (positions_from 0 [] (kind_versions g from.kind))))
            _ h1 in
        let (start, at_lo, start_id) =
          placed from lo (kind_versions g from.kind)
            (or_raise_inv migration_path_error _ found_lo) in
        let (end, at_hi, end_id) =
          placed to hi (kind_versions g from.kind) (or_raise_inv migration_path_error _ found_hi) in
        let kinds = (eq_text.same_iff from.kind to.kind).0 same in
        between from to path kinds lo hi start end at_lo at_hi start_id end_id
          (walked from to path kinds lo hi start at_lo h2)
    | inr other ↦ let bad = rw other at h in cc
  ]
