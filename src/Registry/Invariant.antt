-- ===== src/Registry/Invariant.antt =====
-- Every operation on the entries of the registry keeps them sound, and says what lookups give.
use pyverge.Prelude.{
  none, some, ◌≡◌, refl, sym, subst, ◌∙◌, ◌==◌, ap, inl, inr, Option-cases, ◌⊎◌, if◌then◌else◌,
}
use pyverge.Prelude.Text.{eq_text}
use pyverge.Prelude.Dict.{set_item}
use pyverge.Prelude.Linear.{Linear}
use pyverge.Prelude.Groups.{bucket}
use pyverge.Prelude.Sorted.{insort_left, remove_at, find_at-insort_left, find_at-remove_at}
use pyverge.Errors.{ok, err, model_already_registered}
use pyverge.Identity.{NodeId, NodeEntry}
use pyverge.Identity.Order.{linear_node, eq_node}
use pyverge.Registry.{node, HealthIndex, Registry, Services}
use pyverge.Registry.Health.{with_health, drop_entity, affected_by_node_change, discard_entity}
use pyverge.Registry.Nodes.{
  node_id, with_nodes, add_model, pop_model, find_entry, store, remove_entry,
}
use pyverge.Registry.Entries.{
  refresh_health-with_health, AreSound, insert-AreSound, remove-AreSound,
}

module _ {V M H I : Type 0} ⦃o : Linear V⦄ where
  -- The entries of a registry are sound.
  abbrev pub IsSound : Registry V M H I → Type 0
  IsSound r = AreSound r.by_versions r.by_kinds

  module _ (services : Services V M H I) where
    abbrev stored : NodeEntry V → Registry V M H I → Registry V M H I
    stored n r =
        with_nodes (insort_left node_id n r.by_versions)
          (set_item n.id.kind (insort_left node_id n (bucket n.id.kind r.by_kinds)) r.by_kinds)
          (add_model n n.descriptor r.by_models) r

    -- What storing a new entry leaves, apart from the health.
    store_new :
        (n : NodeEntry V) (r : Registry V M H I)
        → find_entry r n.id ≡ none
        → (h : HealthIndex V M I) × (store services n r ≡ (ok n, with_health (stored n r) h))
    unfolding store
    store_new n r new =
        let (h, e) =
          refresh_health-with_health services (affected_by_node_change n (stored n r))
            (stored n r) in
        (h, rw (new, e) refl)

    store_old :
        (n m : NodeEntry V) (r : Registry V M H I)
        → find_entry r n.id ≡ some m
        → store services n r ≡ (err model_already_registered, r)
    unfolding store
    store_old n m r old = rw old refl

    abbrev taken_out : NodeEntry V → Registry V M H I → Registry V M H I
    taken_out n r =
        with_nodes (remove_at node_id r.by_versions n.id)
          (set_item n.id.kind (remove_at node_id (bucket n.id.kind r.by_kinds) n.id) r.by_kinds)
          (pop_model n.descriptor r.by_models) r

    remove_entry_lem :
        (n : NodeEntry V) (r : Registry V M H I)
        → (h : HealthIndex V M I) × (remove_entry services n r ≡ with_health (taken_out n r) h)
    unfolding remove_entry drop_entity
    remove_entry_lem n r =
        refresh_health-with_health services (discard_entity (node n) (affected_by_node_change n r))
          (drop_entity (node n) (taken_out n r))

    -- Storing an entry keeps the registry sound, whether it succeeds or raises.
    pub store-IsSound :
        (n : NodeEntry V) (r : Registry V M H I) → IsSound r → IsSound (store services n r).1
    unfolding find_entry
    store-IsSound n r s = elim (Option-cases (find_entry r n.id)) [
      | inl new ↦
          let (h, e) = store_new n r new in
          subst (λ c. IsSound c.1) (sym e) (insert-AreSound n r.by_versions r.by_kinds s new)
      | inr (m, old) ↦ subst (λ c. IsSound c.1) (sym (store_old n m r old)) s
    ]

    pub remove_entry-IsSound :
        (n : NodeEntry V) (r : Registry V M H I) → IsSound r → IsSound (remove_entry services n r)
    remove_entry-IsSound n r s =
        let (h, e) = remove_entry_lem n r in
        subst IsSound (sym e) (remove-AreSound n.id r.by_versions r.by_kinds s)

    -- In a sound registry, an entry whose identity is not there is stored, and then its identity is
    -- found as that entry and every other identity as before; an entry whose identity is there
    -- already is refused and nothing changes.
    pub find_entry-store :
        (n : NodeEntry V) (k : NodeId V) (r : Registry V M H I)
        → IsSound r
        → ((find_entry r n.id ≡ none)
            × ((store services n r).0 ≡ ok n)
            × (find_entry (store services n r).1 k
                ≡ (if n.id == k then some n else find_entry r k)))
          ⊎ (((m : NodeEntry V) × (find_entry r n.id ≡ some m))
              × (store services n r ≡ (err model_already_registered, r)))
    unfolding find_entry
    find_entry-store n k r s = elim (Option-cases (find_entry r n.id)) [
      | inl new ↦
          let (h, e) = store_new n r new in
          inl (
            new,
            ap (λ c. c.0) e,
            ap (λ c. find_entry c.1 k) e
                ∙ find_at-insort_left node_id n r.by_versions k s.sorted new,
          )
      | inr (m, old) ↦ inr ((m, old), store_old n m r old)
    ]

    -- In a sound registry, after an entry is removed, its identity is not found and every other one is, as before.
    pub find_entry-remove_entry :
        (n : NodeEntry V) (k : NodeId V) (r : Registry V M H I)
        → IsSound r
        → find_entry (remove_entry services n r) k ≡ (if n.id == k then none else find_entry r k)
    unfolding find_entry
    find_entry-remove_entry n k r s =
        let (h, e) = remove_entry_lem n r in
        ap (λ r. find_entry r k) e ∙ find_at-remove_at node_id r.by_versions n.id k s.sorted
