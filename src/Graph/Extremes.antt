-- ===== src/Graph/Extremes.antt =====
-- `MigrationGraph.latest` and `earliest`: the last and the first version of a kind.
use pyverge.Prelude.{
  ◌≡◌, refl, sym, subst, ◌⊎◌, inl, inr, Bool, Bool-cases, if◌then◌else◌, true, false, List, [], ◌∷◌,
  All, keep_if, keep_if-holds, keep_if-All, All-map, All-both, ◌==◌, arith,
}
use pyverge.Prelude.Text.{Text, eq_text}
use pyverge.Prelude.Linear.{Linear, lt, cmp_refl}
use pyverge.Prelude.Sorted.{sorted}
use pyverge.Prelude.Members.{Mem, All-Mem, All-passing, All-kept, All-sorted, sorted-All}
use pyverge.Prelude.Ascending.{IsAscending, sorted-IsAscending, keep_if-IsAscending}
use pyverge.Errors.{ok, err, catalog_error, ok_inj}
use pyverge.Identity.{NodeId, NodeEntry, EdgeId, is_model}
use pyverge.Identity.Order.{linear_node, eq_node}
use pyverge.Backend.{BuildOptions, build}
use pyverge.Backend.Indexes.{nodes_for_kind-build}
use pyverge.Graph.{MigrationGraph, Revision, kind_versions, last_version, first_version}
use pyverge.Graph.Lookup.{latest, earliest}

module _ {V : Type 0} where
  pub last_version-All :
      (Q : NodeEntry V → Type 0) (ns : List (NodeEntry V)) (n : NodeEntry V)
      → All Q ns
      → last_version ns ≡ ok n
      → Q n
  unfolding last_version
  last_version-All Q [] n q h = cc
  last_version-All Q (x ∷ []) n q h = subst Q (ok_inj h) q.0
  last_version-All Q (x ∷ y ∷ ns) n q h = last_version-All Q (y ∷ ns) n q.1 h

  pub first_version-All :
      (Q : NodeEntry V → Type 0) (ns : List (NodeEntry V)) (n : NodeEntry V)
      → All Q ns
      → first_version ns ≡ ok n
      → Q n
  unfolding first_version
  first_version-All Q [] n q h = cc
  first_version-All Q (x ∷ ns) n q h = subst Q (ok_inj h) q.0

  pub last_version-cases :
      (ns : List (NodeEntry V))
      → ((n : NodeEntry V) × (last_version ns ≡ ok n))
        ⊎ ((last_version ns ≡ err catalog_error) × (ns ≡ []))
  unfolding last_version
  last_version-cases [] = inr (refl, refl)
  last_version-cases (x ∷ []) = inl (x, refl)
  last_version-cases (x ∷ y ∷ ns) = elim (last_version-cases (y ∷ ns)) [
    | inl found ↦ inl found
    | inr (h, none_there) ↦ absurd (let z = none_there in cc)
  ]

pub All-none : {A : Type 0} (xs : List A) → All (λ x. ⊥) xs → xs ≡ []
All-none [] a = refl
All-none (x ∷ xs) a = elim a.0 [ ]

abbrev pub node_id : {V : Type 0} → NodeEntry V → NodeId V
node_id n = n.id

module _ {V : Type 0} ⦃o : Linear V⦄ where
  -- A model of the kind.
  abbrev pub IsModelOf : Text → NodeEntry V → Type 0
  IsModelOf kind n = (n.id.kind ≡ kind) × (is_model n ≡ true)

  -- One of the nodes, and a model of the kind.
  abbrev pub IsRegistered : List (NodeEntry V) → Text → NodeEntry V → Type 0
  IsRegistered nodes kind n = Mem n nodes × IsModelOf kind n

  abbrev pub is_model_of : Text → NodeEntry V → Bool
  is_model_of kind n = if n.id.kind == kind then is_model n else false

  irreflexive : (k : NodeId V) → lt k k ≡ false
  irreflexive k = ground (arith, cmp_refl k)

  pub last_version-greatest :
      (ns : List (NodeEntry V)) (n : NodeEntry V)
      → IsAscending node_id ns
      → last_version ns ≡ ok n
      → All (λ m. lt n.id m.id ≡ false) ns
  unfolding last_version
  last_version-greatest [] n s h = tt
  last_version-greatest (x ∷ []) n s h =
      (subst (λ m. lt m.id x.id ≡ false) (ok_inj h) (irreflexive x.id), tt)
  last_version-greatest (x ∷ y ∷ ns) n s h = (
    last_version-All (λ m. lt m.id x.id ≡ false) (y ∷ ns) n s.0 h,
    last_version-greatest (y ∷ ns) n s.1 h,
  )

  first_version-least :
      (ns : List (NodeEntry V)) (n : NodeEntry V)
      → IsAscending node_id ns
      → first_version ns ≡ ok n
      → All (λ m. lt m.id n.id ≡ false) ns
  unfolding first_version
  first_version-least [] n s h = tt
  first_version-least (x ∷ ns) n s h =
      subst (λ n. All (λ m. lt m.id n.id ≡ false) (x ∷ ns)) (ok_inj h) (irreflexive x.id, s.0)

  module _ (nodes : List (NodeEntry V)) (edges : List (EdgeId V)) (options : BuildOptions V)
      (revision : Revision) (digest : Text) where
    -- A graph that is locked around a built backend.
    abbrev pub built : MigrationGraph V
    built = record {
      backend = build nodes edges options;
      revision = revision;
      manifest_digest = digest;
    }

    pub kind_versions-IsAscending : (kind : Text) → IsAscending node_id (kind_versions built kind)
    unfolding kind_versions
    kind_versions-IsAscending kind = rw nodes_for_kind-build (
        keep_if-IsAscending node_id is_model _ (
          keep_if-IsAscending node_id (λ n. n.id.kind == kind) _
            (sorted-IsAscending node_id nodes)))

    pub kind_versions-AreModels : (kind : Text) → All (IsModelOf kind) (kind_versions built kind)
    unfolding kind_versions
    kind_versions-AreModels kind = rw nodes_for_kind-build (
        All-both (λ n. n.id.kind ≡ kind) (λ n. is_model n ≡ true) _
          (keep_if-All is_model (λ n. n.id.kind ≡ kind) _
            (All-map (λ n h. (eq_text.same_iff n.id.kind kind).0 h) _
              (keep_if-holds (λ n. n.id.kind == kind) (sorted node_id nodes))))
          (keep_if-holds is_model (keep_if (λ n. n.id.kind == kind) (sorted node_id nodes))))

    pub kind_versions-AreRegistered :
        (kind : Text) → All (IsRegistered nodes kind) (kind_versions built kind)
    unfolding kind_versions
    kind_versions-AreRegistered kind =
        All-both (λ n. Mem n nodes) (IsModelOf kind) (kind_versions built kind)
          (rw nodes_for_kind-build (
            keep_if-All is_model (λ n. Mem n nodes) _
              (keep_if-All (λ n. n.id.kind == kind) (λ n. Mem n nodes) _
                (All-sorted node_id (λ n. Mem n nodes) nodes (All-Mem nodes)))))
          (kind_versions-AreModels kind)

    -- `kind_versions` misses no model of the kind.
    pub kind_versions-all :
        (P : NodeEntry V → Type 0) (kind : Text)
        → All P (kind_versions built kind)
        → All P (keep_if (is_model_of kind) nodes)
    unfolding kind_versions
    kind_versions-all P kind a =
        let listed = rw nodes_for_kind-build at a in
        let models =
          All-passing is_model P (keep_if (λ n. n.id.kind == kind) (sorted node_id nodes)) listed in
        let kinds =
          All-passing (λ n. n.id.kind == kind) (λ n. is_model n ≡ true → P n) (sorted node_id nodes)
            models in
        All-kept (is_model_of kind) P nodes (
          All-map (λ n f h. both n f h) nodes
            (sorted-All node_id (λ n. (n.id.kind == kind) ≡ true → is_model n ≡ true → P n) nodes
              kinds))
      where
        both :
            (n : NodeEntry V)
            → ((n.id.kind == kind) ≡ true → is_model n ≡ true → P n)
            → is_model_of kind n ≡ true
            → P n
        both n f h = elim (Bool-cases (n.id.kind == kind)) [
          | inl same ↦ f same (rw same at h)
          | inr other ↦ absurd (let z : false ≡ true = rw other at h in cc)
        ]

    -- In a graph that is locked around a built backend, the latest version of a kind is one of the
    -- graph's nodes, a model of that kind, and no model of the kind among the nodes is greater;
    -- and a CatalogError is raised only where no node is a model of the kind.
    pub latest-greatest :
        (kind : Text)
        → ((n : NodeEntry V) × (latest built kind ≡ ok n)
            × IsRegistered nodes kind n
            × All (λ m. lt n.id m.id ≡ false) (keep_if (is_model_of kind) nodes))
          ⊎ ((latest built kind ≡ err catalog_error) × (keep_if (is_model_of kind) nodes ≡ []))
    unfolding latest
    latest-greatest kind = elim (last_version-cases (kind_versions built kind)) [
      | inl (n, h) ↦ inl (
        n,
        h,
        last_version-All (IsRegistered nodes kind) _ n (kind_versions-AreRegistered kind) h,
        kind_versions-all (λ m. lt n.id m.id ≡ false) kind
            (last_version-greatest _ n (kind_versions-IsAscending kind) h),
      )
      | inr (h, none_there) ↦ inr (
        h,
        All-none _ (kind_versions-all (λ m. ⊥) kind (subst (All (λ m. ⊥)) (sym none_there) tt)),
      )
    ]

    -- In a graph that is locked around a built backend, the earliest version of a kind is a
    -- registered model of that kind, and no registered model of the kind is less.
    pub earliest-least :
        (kind : Text) (n : NodeEntry V)
        → earliest built kind ≡ ok n
        → IsModelOf kind n × All (λ m. lt m.id n.id ≡ false) (kind_versions built kind)
    unfolding earliest
    earliest-least kind n h = (
      first_version-All (IsModelOf kind) _ n (kind_versions-AreModels kind) h,
      first_version-least _ n (kind_versions-IsAscending kind) h,
    )
