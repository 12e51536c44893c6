-- ===== src/Graph/Reach.antt =====
-- `MigrationGraph.edge_path` finds the path wherever every hop has its edge.
use pyverge.Prelude.{
  ℕ, zero, suc, ◌+◌, ◌≤◌, ◌≡◌, refl, Bool, true, false, some, List, [], ◌∷◌, get_elem?, nat_eq, ltb,
  ltb→lt, arith, Bool-cases, inl, inr,
}
use pyverge.Prelude.Text.{Text, eq_text}
use pyverge.Prelude.Dict.{get}
use pyverge.Prelude.Linear.{Linear}
use pyverge.Errors.{ok}
use pyverge.Identity.{NodeId, NodeEntry, EdgeId}
use pyverge.Identity.Order.{linear_node, eq_node}
use pyverge.Graph.{
  MigrationGraph, Revision, hop, walk, next_index, distance, edge_path, kind_versions,
  positions_from,
}
use pyverge.Graph.Places.{placed}
use pyverge.Graph.Extremes.{built}
use pyverge.Graph.Usable.{IsEdgeFor, hop_total}
use pyverge.Backend.{BuildOptions}

in_range :
    {A : Type 0} (xs : List A) (i j : ℕ) (x : A)
    → get_elem? xs j ≡ some x
    → i ≤ j
    → (y : A) × (get_elem? xs i ≡ some y)
in_range [] i j x h le = cc
in_range (y ∷ xs) zero j x h le = (y, refl)
in_range (y ∷ xs) (suc i) zero x h le = absurd (omega arith)
in_range (y ∷ xs) (suc i) (suc j) x h le = in_range xs i j x h (omega arith)

module _ {V : Type 0} ⦃o : Linear V⦄ (g : MigrationGraph V) (d : Text) where
  -- A hop from each version to the version beside it, on the side that `up` says.
  abbrev Hops : List (NodeEntry V) → Bool → Type 0
  Hops versions up =
      (i : ℕ) (a b : NodeEntry V)
      → get_elem? versions i ≡ some a
      → get_elem? versions (next_index up i) ≡ some b
      → (e : EdgeId V) × (hop g d a b ≡ ok e)

  module _ (versions : List (NodeEntry V)) where
    -- The index beside `lo` is in range while rounds are left.
    abbrev Stays : Bool → ℕ → ℕ → ℕ → Type 0
    Stays true k lo top = lo + k ≤ top
    Stays false k lo top = lo ≤ top

    Stays-next :
        (up : Bool) (k lo top : ℕ)
        → Stays up (suc k) lo top
        → (next_index up lo ≤ top) × Stays up k (next_index up lo) top
    Stays-next true k lo top s = (omega arith, omega arith)
    Stays-next false k lo top s = (omega arith, omega arith)

    walk_total :
        (up : Bool) (last : NodeEntry V) (top : ℕ)
        → Hops versions up
        → get_elem? versions top ≡ some last
        → (k lo : ℕ) (current : NodeEntry V) → get_elem? versions lo ≡ some current
        → Stays up k lo top
        → (path : List (EdgeId V)) × (walk g d versions up k lo current ≡ ok path)
    unfolding walk
    walk_total up last top c at_top zero lo current here s = ([], refl)
    walk_total up last top c at_top (suc k) lo current here s =
        let (inside, stays) = Stays-next up k lo top s in
        let (target, found) = in_range versions (next_index up lo) top last at_top inside in
        let (e, hopped) = c lo current target here found in
        let (rest, walked) =
          walk_total up last top c at_top k (next_index up lo) target found stays in
        (e ∷ rest, rw (found, hopped, walked))

  far :
      (lo hi : ℕ) (start end : NodeEntry V) (versions : List (NodeEntry V))
      → get_elem? versions lo ≡ some start
      → get_elem? versions hi ≡ some end
      → Hops versions (ltb lo hi)
      → (path : List (EdgeId V)) × (walk g d versions (ltb lo hi) (distance lo hi) lo start
          ≡ ok path)
  far lo hi start end versions at_lo at_hi c = elim (Bool-cases (ltb lo hi)) [
    | inl up ↦
        let less = ltb→lt lo hi up in
        rw up (
          walk_total versions true end hi (rw up at c) at_hi (distance lo hi) lo start at_lo
            (omega arith))
    | inr down ↦ rw down (
        walk_total versions false start lo (rw down at c) at_lo (distance lo hi) lo start at_lo
          (omega arith))
  ]

  edge_path-Hops :
      (from to : NodeId V) (lo hi : ℕ)
      → from.kind ≡ to.kind
      → get from (positions_from 0 [] (kind_versions g from.kind)) ≡ some lo
      → get to (positions_from 0 [] (kind_versions g from.kind)) ≡ some hi
      → Hops (kind_versions g from.kind) (ltb lo hi)
      → (path : List (EdgeId V)) × (edge_path g from to d ≡ ok path)
  unfolding edge_path
  edge_path-Hops from to lo hi kinds found_lo found_hi c =
      let vs = kind_versions g from.kind in
      let (start, at_lo, start_id) = placed from lo vs found_lo in
      let (end, at_hi, end_id) = placed to hi vs found_hi in
      let same_kind = (eq_text.same_iff from.kind to.kind).1 kinds in
      elim (Bool-cases (nat_eq lo hi)) [
        | inl same ↦ ([], rw (same_kind, found_lo, found_hi, same))
        | inr apart ↦
            let (path, walked) = far lo hi start end vs at_lo at_hi c in
            (path, rw (same_kind, found_lo, found_hi, apart, at_lo, walked))
      ]

module _ {V : Type 0} ⦃o : Linear V⦄ (edges : List (EdgeId V)) (options : BuildOptions V)
    (d : Text) where
  -- Each version has an edge in the graph, executable and of the discriminator, to the version
  -- beside it, on the side that `up` says.
  abbrev pub IsConnected : List (NodeEntry V) → Bool → Type 0
  IsConnected versions up =
      (i : ℕ) (a b : NodeEntry V)
      → get_elem? versions i ≡ some a
      → get_elem? versions (next_index up i) ≡ some b
      → (e : EdgeId V) × IsEdgeFor edges options d a b e

  pub edge_path_total :
      (nodes : List (NodeEntry V)) (revision : Revision) (digest : Text) (from to : NodeId V)
      (lo hi : ℕ)
      → from.kind ≡ to.kind
      → let versions = kind_versions (built nodes edges options revision digest) from.kind in
        get from (positions_from 0 [] versions) ≡ some lo
        → get to (positions_from 0 [] versions) ≡ some hi
        → IsConnected versions (ltb lo hi)
        → (path : List (EdgeId V)) × (edge_path
              (built nodes edges options revision digest)
              from
              to
              d
            ≡ ok path)
  edge_path_total nodes revision digest from to lo hi kinds found_lo found_hi c =
      edge_path-Hops (built nodes edges options revision digest) d from to lo hi kinds found_lo
        found_hi
        (λ i a b ha hb.
          let (e, usable) = c i a b ha hb in
          (e, hop_total nodes edges options revision digest d a b e usable))
