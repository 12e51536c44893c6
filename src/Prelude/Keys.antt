-- ===== src/Prelude/Keys.antt =====
-- A dictionary has each key once, and every operation keeps it so.
use mathlib.Core.Path.{◌≡◌, refl}
use mathlib.Core.Option.{none, some}
use mathlib.Core.List.{[], ◌∷◌, ◌++◌}
use mathlib.Core.Logic.{inl, inr}
use native.Mathlib.Omega.{arith}
use Prim.Native.Nat.{◌≤◌, ◌<◌}
use pyverge.Prelude.Lists.{length, length-append}
use pyverge.Prelude.Tests.{Eq, beq_refl, Option-cases}
use pyverge.Prelude.Dict.{
  Dict, get, set_item, del_item, move_to_end, get-set_item, get-del_item, get-append,
}

module _ {ℓ κ} {K : Type ℓ} {V : Type κ} ⦃e : Eq K⦄ where
  abbrev pub IsDict : Dict K V → Type κ
  IsDict [] = Unit
  IsDict ((k, v) ∷ d) = (get k d ≡ none) × IsDict d

  pub set_item-IsDict : (k : K) (v : V) (d : Dict K V) → IsDict d → IsDict (set_item k v d)
  unfolding set_item get
  set_item-IsDict k v [] h = (refl, tt)
  set_item-IsDict k v ((j, w) ∷ d) h =
      ground
        (arith, set_item-IsDict k v d h.1, get-set_item k j v d, e.same_iff j k, e.same_iff k j)

  pub del_item-IsDict : (k : K) (d : Dict K V) → IsDict d → IsDict (del_item k d)
  unfolding del_item
  del_item-IsDict k [] h = tt
  del_item-IsDict k ((j, w) ∷ d) h =
      ground (arith, del_item-IsDict k d h.1, get-del_item k j d, e.same_iff j k, e.same_iff k j)

  pub snoc-IsDict :
      (k : K) (v : V) (d : Dict K V) → IsDict d → get k d ≡ none → IsDict (d ++ (k, v) ∷ [])
  unfolding get
  snoc-IsDict k v [] h new = (refl, tt)
  snoc-IsDict k v ((j, w) ∷ d) h new =
      ground
        (arith, snoc-IsDict k v d h.1, get-append j d ((k, v) ∷ []), e.same_iff j k, e.same_iff k j)

  pub get-del_item_self : (k : K) (d : Dict K V) → get k (del_item k d) ≡ none
  get-del_item_self k d = rw (get-del_item, beq_refl)

  pub move_to_end-IsDict : (k : K) (d : Dict K V) → IsDict d → IsDict (move_to_end k d)
  unfolding move_to_end
  move_to_end-IsDict k d h = elim (Option-cases (get k d)) [
    | inl missing ↦ rw missing h
    | inr (v, here) ↦
        rw here (snoc-IsDict k v (del_item k d) (del_item-IsDict k d h) (get-del_item_self k d))
  ]

  -- Assigning a key and moving it to the end is to delete it and append it.
  del_item-set_item : (k : K) (v : V) (d : Dict K V) → del_item k (set_item k v d) ≡ del_item k d
  unfolding del_item set_item
  del_item-set_item k v [] = ground (arith, beq_refl k)
  del_item-set_item k v ((j, w) ∷ d) =
      ground (arith, del_item-set_item k v d, beq_refl k, e.same_iff j k)

  pub move_to_end-set_item :
      (k : K) (v : V) (d : Dict K V) → move_to_end k (set_item k v d) ≡ del_item k d ++ (k, v) ∷ []
  unfolding move_to_end
  move_to_end-set_item k v d = rw (get-set_item, beq_refl, del_item-set_item)

  length-del_item-le : (k : K) (d : Dict K V) → length (del_item k d) ≤ length d
  unfolding del_item
  length-del_item-le k [] = omega arith
  length-del_item-le k ((j, w) ∷ d) = ground (arith, length-del_item-le k d)

  length-del_item-lt :
      (k : K) (d : Dict K V) (v : V) → get k d ≡ some v → length (del_item k d) < length d
  unfolding del_item get
  length-del_item-lt k [] v h = cc
  length-del_item-lt k ((j, w) ∷ d) v h =
      ground (arith, length-del_item-le k d, length-del_item-lt k d v)

  pub length-move_to_end-le : (k : K) (d : Dict K V) → length (move_to_end k d) ≤ length d
  unfolding move_to_end
  length-move_to_end-le k d = elim (Option-cases (get k d)) [
    | inl missing ↦ rw missing (omega arith)
    | inr (v, here) ↦ rw (here, length-append) (omega (arith, length-del_item-lt k d v here))
  ]

  pub get_empty : (k : K) (d : Dict K V) → length d ≤ 0 → get k d ≡ none
  unfolding get
  get_empty k [] h = refl
  get_empty k (x ∷ d) h = absurd (omega arith)
