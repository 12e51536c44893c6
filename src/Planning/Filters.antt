-- ===== src/Planning/Filters.antt =====
-- Tests of some items of a list, and how many pass.
use pyverge.Prelude.{
  ℕ, suc, ◌+◌, ◌≡◌, refl, ap, Bool, true, false, not, ◌&&◌, List, [], ◌∷◌, ◌++◌, length, keep_if,
  any_of, All, All-map, Bool-cases, inl, inr, arith, if◌then◌else◌,
}

-- How many items pass.
abbrev pub count {ℓ} : {A : Type ℓ} → (A → Bool) → List A → ℕ
count p xs = length (keep_if p xs)

module _ {A : Type 0} where
  pub All-false→any_of :
      (p : A → Bool) (xs : List A) → All (λ x. p x ≡ false) xs → any_of p xs ≡ false
  All-false→any_of p [] h = refl
  All-false→any_of p (x ∷ xs) h = rw h.0 (All-false→any_of p xs h.1)

  pub any_of→All-false :
      (p : A → Bool) (xs : List A) → any_of p xs ≡ false → All (λ x. p x ≡ false) xs
  any_of→All-false p [] h = tt
  any_of→All-false p (x ∷ xs) h = elim (Bool-cases (p x)) [
    | inl found ↦ absurd (let e = rw found at h in cc)
    | inr other ↦ (other, any_of→All-false p xs (rw other at h))
  ]

  any_of-append :
      (p : A → Bool) (xs ys : List A)
      → any_of p (xs ++ ys) ≡ (if any_of p xs then true else any_of p ys)
  any_of-append p [] ys = refl
  any_of-append p (x ∷ xs) ys = ground (arith, any_of-append p xs ys)

  -- The items that pass one of two opposite tests are all the items.
  pub count-split :
      (p q q' : A → Bool) (xs : List A)
      → All (λ x. q' x ≡ not (q x)) xs
      → count p (keep_if q xs) + count p (keep_if q' xs) ≡ count p xs
  count-split p q q' [] h = omega arith
  count-split p q q' (x ∷ xs) h = ground (arith, count-split p q q' xs h.1, h.0)

  pub count-append : (p : A → Bool) (xs ys : List A) → count p (xs ++ ys) ≡ count p xs + count p ys
  count-append p [] ys = omega arith
  count-append p (x ∷ xs) ys = ground (arith, count-append p xs ys)

  pub count-true : (xs : List A) → count (λ x. true) xs ≡ length xs
  count-true [] = refl
  count-true (x ∷ xs) = ap suc (count-true xs)

  pub All-append : (Q : A → Type 0) (xs ys : List A) → All Q xs → All Q ys → All Q (xs ++ ys)
  All-append Q [] ys h k = k
  All-append Q (x ∷ xs) ys h k = (h.0, All-append Q xs ys h.1 k)

  pub keep_if-empty : (p : A → Bool) (xs : List A) → keep_if p xs ≡ [] → All (λ x. p x ≡ false) xs
  keep_if-empty p [] h = tt
  keep_if-empty p (x ∷ xs) h = elim (Bool-cases (p x)) [
    | inl kept ↦ absurd (let e = rw kept at h in cc)
    | inr dropped ↦ (dropped, keep_if-empty p xs (rw dropped at h))
  ]

  pub any_of-keep_if :
      (p q : A → Bool) (xs : List A) → any_of p (keep_if q xs) ≡ any_of (λ x. q x && p x) xs
  any_of-keep_if p q [] = refl
  any_of-keep_if p q (x ∷ xs) = ground (arith, any_of-keep_if p q xs)

  -- Each item passes its own test.
  pub any_of_self :
      (P : A → A → Bool) (G : A → Type 0)
      → ((x : A) → G x → P x x ≡ true)
      → (xs : List A) → All (λ x. G x → any_of (λ r. P r x) xs ≡ true) xs
  any_of_self P G own [] = tt
  any_of_self P G own (x ∷ xs) = (
    λ g. rw (own x g) refl,
    All-map (λ y h g. or_later (P x y) (h g)) xs (any_of_self P G own xs),
  )
    where
      or_later : (b : Bool) {c : Bool} → c ≡ true → (if b then true else c) ≡ true
      or_later true h = refl
      or_later false h = h

  -- What holds of the items that pass holds of the filtered list.
  pub All-passed :
      (p : A → Bool) (Q : A → Type 0) (xs : List A)
      → All (λ x. p x ≡ true → Q x) xs
      → All Q (keep_if p xs)
  All-passed p Q [] h = tt
  All-passed p Q (x ∷ xs) h = elim (Bool-cases (p x)) [
    | inl kept ↦ rw kept (h.0 kept, All-passed p Q xs h.1)
    | inr dropped ↦ rw dropped (All-passed p Q xs h.1)
  ]
