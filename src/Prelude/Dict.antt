-- ===== src/Prelude/Dict.antt =====
-- Python's `dict` and `OrderedDict`: items in insertion order, one for each key.
use mathlib.Core.Path.{◌≡◌, refl}
use mathlib.Core.Logic.{inl, inr}
use mathlib.Core.Bool.{Bool, true, false}
use mathlib.Core.Option.{Option, none, some}
use mathlib.Core.List.{List, [], ◌∷◌, ◌++◌}
use native.Mathlib.Omega.{arith}
use pyverge.Prelude.Tests.{if◌then◌else◌, Eq, ◌==◌, Option-cases}

abbrev pub Dict {ℓ κ} : Type ℓ → Type κ → Type (ℓ ⊔ κ)
Dict K V = List (K × V)

module _ {κ} {V : Type κ} where
  abbrev pub is_some : Option V → Bool
  is_some none = false
  is_some (some v) = true

  abbrev pub or_else : Option V → Option V → Option V
  or_else none b = b
  or_else (some v) b = some v

module _ {ℓ κ} {K : Type ℓ} {V : Type κ} ⦃e : Eq K⦄ where
  -- `d.get(k)`
  unfoldable pub get : K → Dict K V → Option V
  get k [] = none
  get k ((j, v) ∷ d) = if j == k then some v else get k d

  -- `d[k] = v`: an old key keeps its place.
  unfoldable pub set_item : K → V → Dict K V → Dict K V
  set_item k v [] = (k, v) ∷ []
  set_item k v ((j, w) ∷ d) = if j == k then (k, v) ∷ d else (j, w) ∷ set_item k v d

  -- `d.pop(k, None)`
  unfoldable pub del_item : K → Dict K V → Dict K V
  del_item k [] = []
  del_item k ((j, w) ∷ d) = let rest = del_item k d in if j == k then rest else (j, w) ∷ rest

  -- `k in d`
  unfoldable pub has_key : K → Dict K V → Bool
  unfolding get
  has_key k d = is_some (get k d)

  abbrev at_end : K → Option V → Dict K V → Dict K V
  at_end k none d = d
  at_end k (some v) d = del_item k d ++ (k, v) ∷ []

  -- `d.move_to_end(k)`
  unfoldable pub move_to_end : K → Dict K V → Dict K V
  unfolding get del_item
  move_to_end k d = at_end k (get k d) d

  pub get-set_item :
      (k j : K) (v : V) (d : Dict K V)
      → get j (set_item k v d) ≡ (if k == j then some v else get j d)
  unfolding get set_item
  get-set_item k j v [] = refl
  get-set_item k j v ((i, w) ∷ d) =
      ground (arith, e.same_iff k j, e.same_iff i k, e.same_iff i j, get-set_item k j v d)

  pub get-del_item :
      (k j : K) (d : Dict K V) → get j (del_item k d) ≡ (if k == j then none else get j d)
  unfolding get del_item
  get-del_item k j [] = ground arith
  get-del_item k j ((i, w) ∷ d) =
      ground (arith, e.same_iff k j, e.same_iff i k, e.same_iff i j, get-del_item k j d)

  pub get-append : (k : K) (d d' : Dict K V) → get k (d ++ d') ≡ or_else (get k d) (get k d')
  unfolding get
  get-append k [] d' = refl
  get-append k ((i, w) ∷ d) d' = ground (arith, get-append k d d')

  get-at_end :
      (k j : K) (v : V) (d : Dict K V) → get k d ≡ some v → get j (at_end k (some v) d) ≡ get j d
  unfolding get
  get-at_end k j v d h =
      rw (get-append j (del_item k d) ((k, v) ∷ []), get-del_item k j d)
        (ground (arith, e.same_iff k j))

  pub get-move_to_end : (k j : K) (d : Dict K V) → get j (move_to_end k d) ≡ get j d
  unfolding move_to_end
  get-move_to_end k j d = elim (Option-cases (get k d)) [
    | inl missing ↦ rw missing
    | inr (v, here) ↦ rw here (get-at_end k j v d here)
  ]
