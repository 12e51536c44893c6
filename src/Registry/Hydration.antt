-- ===== src/Registry/Hydration.antt =====
-- `Registry.hydrate`: what it leaves.
use pyverge.Prelude.{
  true, false, none, some, ◌≡◌, refl, sym, subst, ◌∙◌, ◌==◌, ap, Bool-cases, inl, inr, Option-cases,
  if◌then◌else◌,
}
use pyverge.Prelude.Text.{eq_text}
use pyverge.Prelude.Linear.{Linear}
use pyverge.Prelude.Sorted.{find_at-id}
use pyverge.Errors.{ok, err, ok_inj, model_conflict, type_error}
use pyverge.Identity.{NodeId, NodeEntry, is_model}
use pyverge.Identity.Order.{linear_node, eq_node}
use pyverge.Registry.{Registry, Services}
use pyverge.Registry.Nodes.{
  node_id, find_entry, store, remove_entry, reconcile, reconcile_with, hydrate, same_fields,
}
use pyverge.Registry.Invariant.{
  IsSound, find_entry-store, find_entry-remove_entry, remove_entry-IsSound,
}

module _ {V M H I : Type 0} ⦃o : Linear V⦄ (services : Services V M H I) where
  -- The entry is found, in full, under its identity, and the others as before.
  abbrev pub IsHydrated : NodeId V → NodeEntry V → Registry V M H I → Registry V M H I → Type 0
  IsHydrated id x r after =
      (is_model x ≡ true)
      × ((k : NodeId V) → find_entry after k ≡ (if id == k then some x else find_entry r k))

  find_entry-id :
      (r : Registry V M H I) (k : NodeId V) (x : NodeEntry V) → find_entry r k ≡ some x → x.id ≡ k
  unfolding find_entry
  find_entry-id r k x h = find_at-id node_id r.by_versions k x h

  store_hydrates :
      (n x : NodeEntry V) (r : Registry V M H I)
      → IsSound r
      → is_model n ≡ true
      → (store services n r).0 ≡ ok x
      → IsHydrated n.id x r (store services n r).1
  store_hydrates n x r s full h = (
    elim (find_entry-store services n n.id r s) [
      | inl (new, won, found) ↦ let same = ok_inj (sym won ∙ h) in rw (← same) full
      | inr (there, refused) ↦ absurd (let e = ap (λ c. c.0) refused in cc)
    ],
    λ k. elim (find_entry-store services n k r s) [
      | inl (new, won, found) ↦ let same = ok_inj (sym won ∙ h) in rw (← same) found
      | inr (there, refused) ↦ absurd (let e = ap (λ c. c.0) refused in cc)
    ],
  )

  kept-IsHydrated :
      (n m : NodeEntry V) (r : Registry V M H I)
      → find_entry r n.id ≡ some m
      → is_model m ≡ true
      → IsHydrated n.id m r r
  kept-IsHydrated n m r old full = (
    full,
    λ k. elim (Bool-cases (n.id == k)) [
      | inl here ↦
          rw here (subst (λ j. find_entry r j ≡ some m) ((eq_node.same_iff n.id k).0 here) old)
      | inr other ↦ rw other refl
    ],
  )

  module _ (n m : NodeEntry V) (r : Registry V M H I) (full : is_model n ≡ true)
      (old : find_entry r n.id ≡ some m) where
    reconcile_known : reconcile services n r ≡ reconcile_with services m n r
    unfolding reconcile
    reconcile_known =
        ap
          (λ f. elim f [
            | none ↦ store services n r
            | some existing ↦ reconcile_with services existing n r
          ])
          old

    reconcile_same :
        is_model m ≡ true
        → reconcile_with services m n r
          ≡ ((if same_fields n m then ok m else err model_conflict), r)
    unfolding reconcile_with
    reconcile_same known = elim (Bool-cases (same_fields n m)) [
      | inl same ↦ rw (full, known, same) refl
      | inr other ↦ rw (full, known, other) refl
    ]

    hydrate_reconciles : is_model m ≡ true → hydrate services n r ≡ reconcile services n r
    unfolding hydrate
    hydrate_reconciles known = rw full (
        ap
          (λ f. elim f [
            | none ↦ store services n r
            | some existing ↦
                if is_model existing
                then reconcile services n r
                else store services n (remove_entry services existing r)
          ])
          old
        ∙ rw known refl)

    hydrate_kept :
        is_model m ≡ true
        → hydrate services n r ≡ ((if same_fields n m then ok m else err model_conflict), r)
    hydrate_kept known = hydrate_reconciles known ∙ reconcile_known ∙ reconcile_same known

    hydrate_same : (x : NodeEntry V) → is_model m ≡ true → (hydrate services n r).0 ≡ ok x → m ≡ x
    hydrate_same x known h =
        let e = ap (λ c. c.0) (sym (hydrate_kept known)) ∙ h in
        elim (Bool-cases (same_fields n m)) [
          | inl same ↦ ok_inj (rw same at e)
          | inr other ↦ absurd (let bad = rw other at e in cc)
        ]

    hydrate_known :
        (x : NodeEntry V)
        → is_model m ≡ true
        → (hydrate services n r).0 ≡ ok x
        → hydrate services n r ≡ (ok x, r)
    hydrate_known x known h =
        hydrate_kept known ∙ ap (λ c. (c, r)) (ap (λ c. c.0) (sym (hydrate_kept known)) ∙ h)

    hydrate_key :
        is_model m ≡ false → hydrate services n r ≡ store services n (remove_entry services m r)
    unfolding hydrate
    hydrate_key bare = rw (full, old, bare) refl

  hydrate_new :
      (n : NodeEntry V) (r : Registry V M H I)
      → is_model n ≡ true
      → find_entry r n.id ≡ none
      → hydrate services n r ≡ store services n r
  unfolding hydrate
  hydrate_new n r full new = rw full (
      ap
        (λ f. elim f [
          | none ↦ store services n r
          | some existing ↦
              if is_model existing
              then reconcile services n r
              else store services n (remove_entry services existing r)
        ])
        new)

  hydrate_bare :
      (n : NodeEntry V) (r : Registry V M H I)
      → is_model n ≡ false
      → hydrate services n r ≡ (err type_error, r)
  unfolding hydrate
  hydrate_bare n r bare = rw bare refl

  -- In a sound registry, a hydration that succeeds leaves, under the identity, the full entry that it returns, and
  -- every other identity is found as before.
  pub hydrate-IsHydrated :
      (n x : NodeEntry V) (r : Registry V M H I)
      → IsSound r
      → (hydrate services n r).0 ≡ ok x
      → IsHydrated n.id x r (hydrate services n r).1
  hydrate-IsHydrated n x r s h = elim (Bool-cases (is_model n)) [
    | inl full ↦ elim (Option-cases (find_entry r n.id)) [
      | inl new ↦
          let e = hydrate_new n r full new in
          subst (λ c. IsHydrated n.id x r c.1) (sym e)
            (store_hydrates n x r s full (ap (λ c. c.0) (sym e) ∙ h))
      | inr (m, old) ↦ elim (Bool-cases (is_model m)) [
        | inl known ↦
            let e = hydrate_known n m r full old x known h in
            let same = hydrate_same n m r full old x known h in
            subst (λ c. IsHydrated n.id x r c.1) (sym e)
              (kept-IsHydrated n x r (old ∙ ap some same) (ap is_model (sym same) ∙ known))
        | inr bare ↦
            let e = hydrate_key n m r full old bare in
            let between = remove_entry services m r in
            let (is, found) =
              store_hydrates n x between (remove_entry-IsSound services m r s) full
                (ap (λ c. c.0) (sym e) ∙ h) in
            let id : m.id ≡ n.id = find_entry-id r n.id m old in
            subst (λ c. IsHydrated n.id x r c.1) (sym e)
              (
                is,
                λ k. found k ∙ elim (Bool-cases (n.id == k)) [
                  | inl here ↦ rw here refl
                  | inr other ↦
                      let gone = find_entry-remove_entry services m k r s in
                      let differs : (m.id == k) ≡ false = ap (λ j. j == k) id ∙ other in
                      rw (other, gone, differs) refl
                ],
              )
      ]
    ]
    | inr bare ↦ absurd (let e = ap (λ c. c.0) (sym (hydrate_bare n r bare)) ∙ h in cc)
  ]
