-- ===== src/Registry/Entries.antt =====
-- The entries of the registry under insertion and removal: the sorted list and the lists of kinds.
use pyverge.Prelude.{
  Bool, none, List, [], ◌∷◌, ◌≡◌, refl, sym, subst, ◌==◌, keep_if, Bool-cases, inl, inr,
  if◌then◌else◌, arith,
}
use pyverge.Prelude.Text.{Text, eq_text}
use pyverge.Prelude.Dict.{Dict, set_item, get-set_item}
use pyverge.Prelude.Linear.{Linear}
use pyverge.Prelude.Groups.{bucket}
use pyverge.Prelude.Sorted.{
  IsSorted, insort_left, remove_at, find_at, insort_left-IsSorted, remove_at-IsSorted,
}
use pyverge.Prelude.Filters.{keep_if-insort_left, keep_if-remove_at, keep_if-remove_at_other}
use pyverge.Identity.{NodeId, NodeEntry}
use pyverge.Identity.Order.{linear_node, eq_node}
use pyverge.Registry.{Entity, HealthIndex, Registry, Services}
use pyverge.Registry.Health.{with_health, refresh_one, refresh_health}
use pyverge.Registry.Nodes.{node_id}

-- Refreshing the health changes nothing else.
module _ {V M H I : Type 0} ⦃o : Linear V⦄ (services : Services V M H I) where
  pub refresh_health-with_health :
      (es : List (Entity V M)) (r : Registry V M H I)
      → (h : HealthIndex V M I) × (refresh_health services es r ≡ with_health r h)
  unfolding refresh_health refresh_one
  refresh_health-with_health [] r = (r.health, refl)
  refresh_health-with_health (e ∷ es) r = refresh_health-with_health es (refresh_one services e r)

bucket-set_item :
    {A : Type 0} (k j : Text) (xs : List A) (d : Dict Text (List A))
    → bucket j (set_item k xs d) ≡ (if k == j then xs else bucket j d)
unfolding bucket
bucket-set_item k j xs d = rw get-set_item (ground (arith, eq_text.same_iff k j))

module _ {V : Type 0} ⦃o : Linear V⦄ where
  abbrev pub of_kind : Text → NodeEntry V → Bool
  of_kind kind n = n.id.kind == kind

  -- The entries are strictly sorted by identity, and the list of each kind holds those of the kind.
  pub record AreSound (versions : List (NodeEntry V)) (kinds : Dict Text (List (NodeEntry V)))
      : Type 0 where
    pub sorted : IsSorted node_id versions
    pub by_kind : (kind : Text) → bucket kind kinds ≡ keep_if (of_kind kind) versions

  pub insert-AreSound :
      (n : NodeEntry V) (versions : List (NodeEntry V)) (kinds : Dict Text (List (NodeEntry V)))
      → AreSound versions kinds
      → find_at node_id versions n.id ≡ none
      → AreSound
          (insort_left node_id n versions)
          (set_item n.id.kind (insort_left node_id n (bucket n.id.kind kinds)) kinds)
  insert-AreSound n versions kinds s new = record {
    sorted = insort_left-IsSorted node_id n versions s.sorted new;
    by_kind = λ kind.
        rw (bucket-set_item, keep_if-insort_left node_id (of_kind kind) n versions s.sorted)
          (elim (Bool-cases (n.id.kind == kind)) [
            | inl here ↦
                let e : n.id.kind ≡ kind = (eq_text.same_iff n.id.kind kind).0 here in
                rw (here, e, s.by_kind kind) refl
            | inr other ↦ rw (other, s.by_kind kind) refl
          ]);
  }

  pub remove-AreSound :
      (k : NodeId V) (versions : List (NodeEntry V)) (kinds : Dict Text (List (NodeEntry V)))
      → AreSound versions kinds
      → AreSound
          (remove_at node_id versions k)
          (set_item k.kind (remove_at node_id (bucket k.kind kinds) k) kinds)
  remove-AreSound k versions kinds s = record {
    sorted = remove_at-IsSorted node_id versions k s.sorted;
    by_kind = λ kind. rw bucket-set_item (elim (Bool-cases (k.kind == kind)) [
      | inl here ↦
          let e : k.kind ≡ kind = (eq_text.same_iff k.kind kind).0 here in
          rw (here, s.by_kind k.kind)
            (subst
              (λ kind.
                remove_at node_id (keep_if (of_kind k.kind) versions) k
                ≡ keep_if (of_kind kind) (remove_at node_id versions k))
              e (sym (keep_if-remove_at node_id (of_kind k.kind) k versions s.sorted)))
      | inr other ↦
          rw (other, s.by_kind kind)
            (sym (keep_if-remove_at_other node_id (of_kind kind) k versions (λ x h. rw h other)))
    ]);
  }

  -- Making an empty list of a kind changes no list.
  pub touch-AreSound :
      (kind : Text) (versions : List (NodeEntry V)) (kinds : Dict Text (List (NodeEntry V)))
      → AreSound versions kinds
      → AreSound versions (set_item kind (bucket kind kinds) kinds)
  touch-AreSound k versions kinds s = record {
    sorted = s.sorted;
    by_kind = λ kind. rw bucket-set_item (elim (Bool-cases (k == kind)) [
      | inl here ↦ rw (here, (eq_text.same_iff k kind).0 here) (s.by_kind kind)
      | inr other ↦ rw other (s.by_kind kind)
    ]);
  }
