-- ===== src/Registry/Removal.antt =====
-- `Registry.remove_model`: what it leaves, on every branch.
use pyverge.Prelude.{
  true, none, some, List, [], ◌∷◌, ◌≡◌, refl, sym, subst, ◌∙◌, ◌==◌, ap, inl, inr, Option-cases,
  List-cases, ◌⊎◌, if◌then◌else◌, beq_refl,
}
use pyverge.Prelude.Text.{eq_text}
use pyverge.Prelude.Dict.{set_item}
use pyverge.Prelude.Linear.{Linear}
use pyverge.Prelude.Groups.{bucket}
use pyverge.Prelude.Sorted.{remove_at, find_at, find_at-remove_at, find_at-id, bisect_left}
use pyverge.Prelude.Filters.{find_at-keep_if, delete_at-found}
use pyverge.Errors.{ok, err, catalog_error}
use pyverge.Identity.{NodeId, NodeEntry}
use pyverge.Identity.Order.{linear_node, eq_node}
use pyverge.Registry.{EdgeEntry, node, HealthIndex, Registry, Services}
use pyverge.Registry.Health.{with_health, affected_by_node_change, drop_entity, discard_entity}
use pyverge.Registry.Nodes.{
  node_id, with_nodes, pop_model, find_entry, migrations_of, remove_model, remove_found, touch_kind,
  remove_at_kind, deleted,
}
use pyverge.Registry.Entries.{refresh_health-with_health, of_kind, remove-AreSound, touch-AreSound}
use pyverge.Registry.Invariant.{IsSound}

module _ {V M H I : Type 0} ⦃o : Linear V⦄ (services : Services V M H I) where
  -- What `remove_model` comes to, apart from the health.
  abbrev without : NodeId V → NodeEntry V → Registry V M H I → Registry V M H I
  without k version r =
      with_nodes (remove_at node_id r.by_versions k)
        (set_item k.kind (remove_at node_id (bucket k.kind r.by_kinds) k) r.by_kinds)
        (pop_model version.descriptor r.by_models) r

  remove_model_missing :
      (k : NodeId V) (r : Registry V M H I)
      → find_entry r k ≡ none
      → remove_model services k r ≡ (err catalog_error, touch_kind k.kind r)
  unfolding remove_model remove_found
  remove_model_missing k r missing = rw missing refl

  remove_model_used :
      (k : NodeId V) (r : Registry V M H I) (x : NodeEntry V) (e : EdgeEntry V M)
      (es : List (EdgeEntry V M))
      → find_entry r k ≡ some x
      → migrations_of r k ≡ e ∷ es
      → remove_model services k r ≡ (err catalog_error, touch_kind k.kind r)
  unfolding remove_model remove_found migrations_of touch_kind
  remove_model_used k r x e es found used = rw (found, remove_found, used) refl

  -- The place that is deleted from the list of the kind is there, and holds the version.
  deleted_lem :
      (k : NodeId V) (r : Registry V M H I) (x : NodeEntry V)
      → IsSound r
      → find_entry r k ≡ some x
      → deleted (bisect_left node_id (bucket k.kind r.by_kinds) k) (bucket k.kind r.by_kinds)
        ≡ some (remove_at node_id (bucket k.kind r.by_kinds) k)
  unfolding find_entry
  deleted_lem k r x s found =
      let id : x.id ≡ k = find_at-id node_id r.by_versions k x found in
      let of : of_kind k.kind x ≡ true =
        ap (λ (j : NodeId V). j.kind == k.kind) id ∙ beq_refl k.kind in
      let there = find_at-keep_if node_id (of_kind k.kind) k r.by_versions x s.sorted found of in
      let listed : find_at node_id (bucket k.kind r.by_kinds) k ≡ some x =
        ap (λ xs. find_at node_id xs k) (s.by_kind k.kind) ∙ there in
      let (within, same) = delete_at-found node_id k (bucket k.kind r.by_kinds) x listed in
      rw (within, same) refl

  remove_at_kind_lem :
      (k : NodeId V) (x : NodeEntry V) (left : List (NodeEntry V)) (r : Registry V M H I)
      → (h : HealthIndex V M I) × (remove_at_kind services k x (some left) r ≡ (
        ok tt,
        with_health
            (with_nodes
              (remove_at node_id r.by_versions k)
              (set_item k.kind left r.by_kinds)
              (pop_model x.descriptor r.by_models)
              r)
            h,
      ))
  unfolding remove_at_kind drop_entity
  remove_at_kind_lem k x left r =
      let (h, e) =
        refresh_health-with_health services (discard_entity (node x) (affected_by_node_change x r))
          (drop_entity (node x) (
            with_nodes (remove_at node_id r.by_versions k) (set_item k.kind left r.by_kinds)
              (pop_model x.descriptor r.by_models) r)) in
      (h, ap (λ r. (ok tt, r)) e)

  remove_model_ok :
      (k : NodeId V) (r : Registry V M H I) (x : NodeEntry V)
      → IsSound r
      → find_entry r k ≡ some x
      → migrations_of r k ≡ []
      → (h : HealthIndex V M I) × (remove_model services k r
          ≡ (ok tt, with_health (without k x (touch_kind k.kind r)) h))
  unfolding remove_model remove_found touch_kind migrations_of find_entry
  remove_model_ok k r x s found unused =
      let touched = touch_kind k.kind r in
      let sound : IsSound touched = touch-AreSound k.kind r.by_versions r.by_kinds s in
      let gone = deleted_lem k touched x sound found in
      let (h, e) =
        remove_at_kind_lem k x (remove_at node_id (bucket k.kind touched.by_kinds) k) touched in
      (
        h,
        rw (found, remove_found, unused) (ap (λ d. remove_at_kind services k x d touched) gone ∙ e),
      )

  -- In a sound registry, a removal is refused where the version is not there, or has migrations,
  -- and then every version is found as before; a version that is there and has no migrations is
  -- removed, and then it is not found any more and every other one is, as before. The registry
  -- stays sound.
  pub find_entry-remove_model :
      (k : NodeId V) (r : Registry V M H I)
      → IsSound r
      → IsSound (remove_model services k r).1
        × ((((find_entry r k ≡ none)
                ⊎ ((e : EdgeEntry V M) × (es : List (EdgeEntry V M)) × (migrations_of r k
                      ≡ e ∷ es)))
              × ((remove_model services k r).0 ≡ err catalog_error)
              × ((j : NodeId V) → find_entry (remove_model services k r).1 j ≡ find_entry r j))
            ⊎ (((x : NodeEntry V) × (find_entry r k ≡ some x))
                × (migrations_of r k ≡ [])
                × ((remove_model services k r).0 ≡ ok tt)
                × ((j : NodeId V)
                    → find_entry (remove_model services k r).1 j
                      ≡ (if k == j then none else find_entry r j))))
  unfolding find_entry touch_kind
  find_entry-remove_model k r s =
      let touched = touch-AreSound k.kind r.by_versions r.by_kinds s in
      elim (Option-cases (find_entry r k)) [
        | inl missing ↦
            let e = remove_model_missing k r missing in
            (
              subst (λ c. IsSound c.1) (sym e) touched,
              inl (inl missing, ap (λ c. c.0) e, λ j. ap (λ c. find_entry c.1 j) e),
            )
        | inr (x, found) ↦ elim (List-cases (migrations_of r k)) [
          | inl unused ↦
              let (h, e) = remove_model_ok k r x s found unused in
              (
                subst (λ c. IsSound c.1) (sym e)
                    (remove-AreSound k r.by_versions (touch_kind k.kind r).by_kinds touched),
                inr (
                  (x, found),
                  unused,
                  ap (λ c. c.0) e,
                  λ j.
                      ap (λ c. find_entry c.1 j) e
                      ∙ find_at-remove_at node_id r.by_versions k j s.sorted,
                ),
              )
          | inr (m, ms, used) ↦
              let e = remove_model_used k r x m ms found used in
              (
                subst (λ c. IsSound c.1) (sym e) touched,
                inl (inr (m, ms, used), ap (λ c. c.0) e, λ j. ap (λ c. find_entry c.1 j) e),
              )
        ]
      ]
