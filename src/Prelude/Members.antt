-- ===== src/Prelude/Members.antt =====
-- Membership in lists, and what `sorted` and filters do to it.
use mathlib.Core.Path.{◌≡◌, refl}
use mathlib.Core.Logic.{◌⊎◌, inl, inr}
use mathlib.Core.Bool.{Bool, true, false}
use mathlib.Core.List.{List, [], ◌∷◌}
use pyverge.Prelude.Tests.{Bool-cases}
use pyverge.Prelude.Lists.{All, All-map, keep_if}
use pyverge.Prelude.Linear.{Linear, lt}
use pyverge.Prelude.Sorted.{insort_left, sorted, insort_left-nil, insort_left-cons}

module _ {A : Type 0} where
  abbrev pub Mem : A → List A → Type 0
  Mem a [] = ⊥
  Mem a (x ∷ xs) = (x ≡ a) ⊎ Mem a xs

  pub All-Mem : (xs : List A) → All (λ x. Mem x xs) xs
  All-Mem [] = tt
  All-Mem (x ∷ xs) = (inl refl, All-map (λ y m. inr m) xs (All-Mem xs))

  -- What holds of the kept items holds of each item that passes.
  pub All-passing :
      (p : A → Bool) (P : A → Type 0) (xs : List A)
      → All P (keep_if p xs)
      → All (λ x. p x ≡ true → P x) xs
  All-passing p P [] a = tt
  All-passing p P (x ∷ xs) a = elim (Bool-cases (p x)) [
    | inl kept ↦ let b = rw kept at a in (λ h. b.0, All-passing p P xs b.1)
    | inr dropped ↦ (
      λ h. absurd (let m : false ≡ true = rw dropped at h in cc),
      All-passing p P xs (rw dropped at a),
    )
  ]

  pub All-kept :
      (p : A → Bool) (P : A → Type 0) (xs : List A)
      → All (λ x. p x ≡ true → P x) xs
      → All P (keep_if p xs)
  All-kept p P [] a = tt
  All-kept p P (x ∷ xs) a = elim (Bool-cases (p x)) [
    | inl kept ↦ rw kept (a.0 kept, All-kept p P xs a.1)
    | inr dropped ↦ rw dropped (All-kept p P xs a.1)
  ]

  module _ {K : Type 0} ⦃o : Linear K⦄ (id : A → K) (P : A → Type 0) where
    All-insort_left : (x : A) (xs : List A) → P x → All P xs → All P (insort_left id x xs)
    All-insort_left x [] h a = rw insort_left-nil (h, tt)
    All-insort_left x (y ∷ xs) h a = rw insort_left-cons (elim (Bool-cases (lt (id y) (id x))) [
      | inl less ↦ rw less (a.0, All-insort_left x xs h a.1)
      | inr more ↦ rw more (h, a)
    ])

    insort_left-All : (x : A) (xs : List A) → All P (insort_left id x xs) → P x × All P xs
    insort_left-All x [] a = let b = rw insort_left-nil at a in b
    insort_left-All x (y ∷ xs) a =
        let b = rw insort_left-cons at a in
        elim (Bool-cases (lt (id y) (id x))) [
          | inl less ↦
              let c = rw less at b in let (h, rest) = insort_left-All x xs c.1 in (h, (c.0, rest))
          | inr more ↦ let c = rw more at b in c
        ]

    pub All-sorted : (xs : List A) → All P xs → All P (sorted id xs)
    unfolding sorted
    All-sorted [] a = tt
    All-sorted (x ∷ xs) a = All-insort_left x (sorted id xs) a.0 (All-sorted xs a.1)

    pub sorted-All : (xs : List A) → All P (sorted id xs) → All P xs
    unfolding sorted
    sorted-All [] a = tt
    sorted-All (x ∷ xs) a =
        let (h, rest) = insort_left-All x (sorted id xs) a in (h, sorted-All xs rest)
