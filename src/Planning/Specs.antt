-- ===== src/Planning/Specs.antt =====
-- The targets that single specifications resolve to.
use pyverge.Prelude.{
  ◌≡◌, refl, sym, subst, ◌⊎◌, ◌∙◌, ap, Bool, true, false, Option, none, some, some_inj, List, [],
  ◌∷◌, Bool-cases, inl, inr, All, keep_if, keep_if-holds, keep_if-All, Option-cases,
}
use pyverge.Prelude.Text.{Text, text_eq, eq_text}
use pyverge.Prelude.Dict.{get}
use pyverge.Prelude.Linear.{Linear, lt}
use pyverge.Prelude.Members.{All-passing, All-kept}
use pyverge.Prelude.Ascending.{keep_if-IsAscending}
use pyverge.Prelude.Groups.{get-index_by, last_of-keep}
use pyverge.Prelude.Sorted.{sorted}
use pyverge.Errors.{Outcome, ok, err, model_not_found, bind_inv, ok_inj}
use pyverge.Identity.{NodeId, NodeEntry, EdgeId}
use pyverge.Identity.Order.{linear_node, eq_node}
use pyverge.Backend.{BuildOptions, build}
use pyverge.Graph.{MigrationGraph, Revision, kind_versions, last_version, find_entry, or_raise}
use pyverge.Graph.Lookup.{
  latest, earliest, has_model, get_model, get_model_by_ref, find_model, if_model,
}
use pyverge.Graph.Extremes.{
  built, IsModelOf, IsRegistered, is_model_of, kind_versions-AreRegistered, kind_versions-all,
  last_version-cases, All-none, node_id, kind_versions-IsAscending, kind_versions-AreModels,
  last_version-All, first_version-All, last_version-greatest,
}
use pyverge.Planning.Targets.{
  VersionRange, TargetSpec, skip, to_latest, to_earliest, to_version, to_range, to_model, to_node,
  Resolver, matches, matched, highest, of_kind, replaced, found, range_target_resolver,
  version_target_resolver, compile_spec, at_version,
}

abbrev pub passes : Outcome Bool → Bool
passes (ok b) = b
passes (err f) = false

module _ {V : Type 0} where
  matched-keep_if :
      (test : V → Outcome Bool) (ns ms : List (NodeEntry V))
      → matched test ns ≡ ok ms
      → ms ≡ keep_if (λ n. passes (test n.id.version)) ns
  unfolding matched
  matched-keep_if test [] ms h = sym (ok_inj h)
  matched-keep_if test (n ∷ ns) ms h =
      let (passed, tested, h1) = bind_inv (test n.id.version) _ h in
      let (rest, later, h2) = bind_inv (matched test ns) _ h1 in
      let e = matched-keep_if test ns rest later in rw (← ok_inj h2, tested, e) refl

  highest_inv : (o : Outcome (NodeEntry V)) (n : NodeEntry V) → highest o ≡ some n → o ≡ ok n
  highest_inv (ok m) n h = ap ok (some_inj h)
  highest_inv (err f) n h = cc

  found_inv : (o : Outcome (NodeEntry V)) (n : NodeEntry V) → found o ≡ ok (some n) → o ≡ ok n
  found_inv (ok m) n h = ap ok (some_inj (ok_inj h))
  found_inv (err f) n h = cc

  of_kind_lem :
      (target current t : NodeEntry V)
      → of_kind target current ≡ ok (some t)
      → t.id.kind ≡ current.id.kind
  of_kind_lem target current t h = elim (Bool-cases (text_eq current.id.kind target.id.kind)) [
    | inl same ↦
        let e : target ≡ t = some_inj (ok_inj (rw same at h)) in
        ap (λ (n : NodeEntry V). n.id.kind) (sym e)
        ∙ sym ((eq_text.same_iff current.id.kind target.id.kind).0 same)
    | inr other ↦ absurd (let bad = rw other at h in cc)
  ]

module _ {V : Type 0} ⦃o : Linear V⦄ (parse : Text → Outcome V) (nodes : List (NodeEntry V))
    (edges : List (EdgeId V)) (options : BuildOptions V) (revision : Revision) (digest : Text) where
  abbrev graph : MigrationGraph V
  graph = built nodes edges options revision digest

  -- A version that the range matches.
  abbrev pub IsMatched : VersionRange → NodeEntry V → Type 0
  IsMatched range n = matches parse range n.id.version ≡ ok true

  passes-IsMatched :
      (range : VersionRange) (n : NodeEntry V)
      → passes (matches parse range n.id.version) ≡ true
      → IsMatched range n
  passes-IsMatched range n h = go (matches parse range n.id.version) h
    where
      go : (out : Outcome Bool) → passes out ≡ true → out ≡ ok true
      go (ok b) h = ap ok h
      go (err f) h = cc

  -- The models of a kind among the nodes of the graph that the range matches.
  abbrev pub matching_models : VersionRange → Text → List (NodeEntry V)
  matching_models range kind =
      keep_if (λ n. passes (matches parse range n.id.version)) (keep_if (is_model_of kind) nodes)

  matching_all :
      (P : NodeEntry V → Type 0) (range : VersionRange) (kind : Text)
      → All P (keep_if (λ n. passes (matches parse range n.id.version)) (kind_versions graph kind))
      → All P (matching_models range kind)
  matching_all P range kind a =
      let test = λ (n : NodeEntry V). passes (matches parse range n.id.version) in
      All-kept test P (keep_if (is_model_of kind) nodes) (
        kind_versions-all nodes edges options revision digest (λ n. test n ≡ true → P n) kind
          (All-passing test P (kind_versions graph kind) a))

  -- In a graph that is locked around a built backend, the target of a range is one of the graph's
  -- nodes, a model of the entry's kind that the range matches, and no model of the kind among the
  -- nodes that it matches is greater; and there is no target only where it matches none.
  pub range_target_resolver-highest :
      (range : VersionRange) (current : NodeEntry V) (answer : Option (NodeEntry V))
      → range_target_resolver parse graph range current ≡ ok answer
      → ((t : NodeEntry V) × (answer ≡ some t)
          × IsRegistered nodes current.id.kind t
          × IsMatched range t
          × All (λ m. lt t.id m.id ≡ false) (matching_models range current.id.kind))
        ⊎ ((answer ≡ none) × (matching_models range current.id.kind ≡ []))
  unfolding range_target_resolver
  range_target_resolver-highest range current answer h =
      let kind = current.id.kind in
      let test = λ (n : NodeEntry V). passes (matches parse range n.id.version) in
      let (ms, kept, h1) =
        bind_inv (matched (matches parse range) (kind_versions graph kind)) _ h in
      let e : ms ≡ keep_if test (kind_versions graph kind) =
        matched-keep_if (matches parse range) _ ms kept in
      let given : highest (last_version (keep_if test (kind_versions graph kind))) ≡ answer =
        ap (λ l. highest (last_version l)) (sym e) ∙ ok_inj h1 in
      elim (last_version-cases (keep_if test (kind_versions graph kind))) [
        | inl (t, last) ↦ inl (
          t,
          sym given ∙ ap highest last,
          last_version-All (IsRegistered nodes kind) _ t
              (keep_if-All test (IsRegistered nodes kind) _
                (kind_versions-AreRegistered nodes edges options revision digest kind))
              last,
          passes-IsMatched range t (
              last_version-All (λ n. test n ≡ true) _ t
                (keep_if-holds test (kind_versions graph kind)) last),
          matching_all (λ m. lt t.id m.id ≡ false) range kind
              (last_version-greatest _ t
                (keep_if-IsAscending node_id test _
                  (kind_versions-IsAscending nodes edges options revision digest kind))
                last),
        )
        | inr (last, none_kept) ↦ inr (
          sym given ∙ ap highest last,
          All-none _ (matching_all (λ m. ⊥) range kind (subst (All (λ m. ⊥)) (sym none_kept) tt)),
        )
      ]

  find_entry-id : (key : NodeId V) (n : NodeEntry V) → find_entry graph key ≡ some n → n.id ≡ key
  unfolding find_entry build get
  find_entry-id key n h =
      elim (last_of-keep node_id key none (sorted node_id nodes) n
        (sym (get-index_by node_id [] (sorted node_id nodes) key) ∙ h)) [
          | inl absent ↦ cc
          | inr same ↦ same
        ]

  get_model-kind :
      (key : NodeId V) (n : NodeEntry V) → get_model graph key ≡ ok n → n.id.kind ≡ key.kind
  unfolding get_model find_model
  get_model-kind key n h = go (find_entry graph key) (λ m e. find_entry-id key m e) h
    where
      inner :
          (m : NodeEntry V)
          → m.id ≡ key
          → or_raise model_not_found (if_model (some m)) ≡ ok n
          → n.id.kind ≡ key.kind
      inner m same h = elim (Option-cases m.descriptor) [
        | inl bare ↦ absurd (let bad = rw bare at h in cc)
        | inr (d, full) ↦
            let e : m ≡ n = ok_inj (rw full at h) in
            ap (λ (x : NodeEntry V). x.id.kind) (sym e) ∙ ap (λ (k : NodeId V). k.kind) same
      ]

      go :
          (found : Option (NodeEntry V))
          → ((m : NodeEntry V) → found ≡ some m → m.id ≡ key)
          → or_raise model_not_found (if_model found) ≡ ok n
          → n.id.kind ≡ key.kind
      go none id h = cc
      go (some m) id h = inner m (id m refl) h

  pub compile_spec-kind :
      (spec : TargetSpec V) (resolver : Resolver V) (current t : NodeEntry V)
      → compile_spec parse graph spec ≡ ok resolver
      → resolver current ≡ ok (some t)
      → t.id.kind ≡ current.id.kind
  unfolding compile_spec latest earliest version_target_resolver
  compile_spec-kind skip resolver current t h k =
      absurd (let bad = ap (λ (r : Resolver V). r current) (ok_inj h) ∙ k in cc)
  compile_spec-kind to_latest resolver current t h k =
      let at = ap (λ (r : Resolver V). r current) (ok_inj h) ∙ k in
      (last_version-All (IsModelOf current.id.kind) _ t
        (kind_versions-AreModels nodes edges options revision digest current.id.kind)
        (found_inv (latest graph current.id.kind) t at)).0
  compile_spec-kind to_earliest resolver current t h k =
      let at = ap (λ (r : Resolver V). r current) (ok_inj h) ∙ k in
      (first_version-All (IsModelOf current.id.kind) _ t
        (kind_versions-AreModels nodes edges options revision digest current.id.kind)
        (found_inv (earliest graph current.id.kind) t at)).0
  compile_spec-kind (to_version text) resolver current t h k =
      let (version, parsed, h1) = bind_inv (replaced (parse text)) _ h in
      let at = ap (λ (r : Resolver V). r current) (ok_inj h1) ∙ k in
      get_model-kind (at_version current.id version) t
        (found_inv (get_model graph (at_version current.id version)) t at)
  compile_spec-kind (to_range range) resolver current t h k =
      let at = ap (λ (r : Resolver V). r current) (ok_inj h) ∙ k in
      elim (range_target_resolver-highest range current (some t) at) [
        | inl (n, same, registered, matches_it, rest) ↦
            ap (λ (m : NodeEntry V). m.id.kind) (some_inj same) ∙ registered.1.0
        | inr (same, rest) ↦ absurd cc
      ]
  compile_spec-kind (to_model ref) resolver current t h k =
      let (target, known, h1) = bind_inv (replaced (get_model_by_ref graph ref)) _ h in
      of_kind_lem target current t (ap (λ (r : Resolver V). r current) (ok_inj h1) ∙ k)
  compile_spec-kind (to_node target) resolver current t h k =
      elim (Bool-cases (has_model graph target.id)) [
        | inl there ↦
            let e : of_kind target ≡ resolver = ok_inj (rw there at h) in
            of_kind_lem target current t (ap (λ (r : Resolver V). r current) e ∙ k)
        | inr missing ↦ absurd (let bad = rw missing at h in cc)
      ]
