-- ===== src/Prelude/Ascending.antt =====
-- `sorted` gives ascending lists, and filters keep them ascending.
use mathlib.Core.Path.{◌≡◌}
use mathlib.Core.Logic.{inl, inr}
use mathlib.Core.Bool.{Bool, false}
use mathlib.Core.List.{List, [], ◌∷◌}
use native.Mathlib.Omega.{arith}
use pyverge.Prelude.Tests.{Bool-cases}
use pyverge.Prelude.Lists.{All, keep_if}
use pyverge.Prelude.Linear.{Linear, lt}
use pyverge.Prelude.Sorted.{insort_left, sorted, insort_left-nil, insort_left-cons}

module _ {ℓ κ} {A : Type ℓ} {K : Type κ} ⦃o : Linear K⦄ (id : A → K) where
  abbrev pub NoneBelow : K → List A → Type 0
  NoneBelow k xs = All (λ y. lt (id y) k ≡ false) xs

  -- No item stands behind a greater one.
  abbrev pub IsAscending : List A → Type 0
  IsAscending [] = Unit
  IsAscending (x ∷ xs) = NoneBelow (id x) xs × IsAscending xs

  NoneBelow-trans : (j k : K) (xs : List A) → lt k j ≡ false → NoneBelow k xs → NoneBelow j xs
  NoneBelow-trans j k [] h b = tt
  NoneBelow-trans j k (x ∷ xs) h b = (
    ground (
      arith,
      b.0,
      o.cmp_swap j k,
      o.cmp_swap (id x) k,
      o.cmp_swap (id x) j,
      o.cmp_trans j k (id x),
      o.cmp_eq j k,
      o.cmp_eq (id x) k,
      o.cmp_trans (id x) j k,
    ),
    NoneBelow-trans j k xs h b.1,
  )

  NoneBelow-insort_left :
      (k : K) (x : A) (xs : List A)
      → lt (id x) k ≡ false
      → NoneBelow k xs
      → NoneBelow k (insort_left id x xs)
  NoneBelow-insort_left k x [] h b = rw insort_left-nil (h, tt)
  NoneBelow-insort_left k x (y ∷ xs) h b =
      rw insort_left-cons (elim (Bool-cases (lt (id y) (id x))) [
        | inl less ↦ rw less (b.0, NoneBelow-insort_left k x xs h b.1)
        | inr more ↦ rw more (h, b)
      ])

  insort_left-IsAscending :
      (x : A) (xs : List A) → IsAscending xs → IsAscending (insort_left id x xs)
  insort_left-IsAscending x [] s = rw insort_left-nil (tt, tt)
  insort_left-IsAscending x (y ∷ xs) s = rw insort_left-cons (elim (Bool-cases (lt (id y) (id x))) [
    | inl less ↦
        let after : lt (id x) (id y) ≡ false = ground (arith, o.cmp_swap (id y) (id x)) in
        rw less (NoneBelow-insort_left (id y) x xs after s.0, insort_left-IsAscending x xs s.1)
    | inr more ↦ rw more ((more, NoneBelow-trans (id x) (id y) xs more s.0), s)
  ])

  pub sorted-IsAscending : (xs : List A) → IsAscending (sorted id xs)
  unfolding sorted
  sorted-IsAscending [] = tt
  sorted-IsAscending (x ∷ xs) = insort_left-IsAscending x (sorted id xs) (sorted-IsAscending xs)

  NoneBelow-keep_if :
      (p : A → Bool) (k : K) (xs : List A) → NoneBelow k xs → NoneBelow k (keep_if p xs)
  NoneBelow-keep_if p k [] b = tt
  NoneBelow-keep_if p k (x ∷ xs) b = elim (Bool-cases (p x)) [
    | inl kept ↦ rw kept (b.0, NoneBelow-keep_if p k xs b.1)
    | inr dropped ↦ rw dropped (NoneBelow-keep_if p k xs b.1)
  ]

  pub keep_if-IsAscending :
      (p : A → Bool) (xs : List A) → IsAscending xs → IsAscending (keep_if p xs)
  keep_if-IsAscending p [] s = tt
  keep_if-IsAscending p (x ∷ xs) s = elim (Bool-cases (p x)) [
    | inl kept ↦ rw kept (NoneBelow-keep_if p (id x) xs s.0, keep_if-IsAscending p xs s.1)
    | inr dropped ↦ rw dropped (keep_if-IsAscending p xs s.1)
  ]
