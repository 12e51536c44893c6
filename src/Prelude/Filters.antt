-- ===== src/Prelude/Filters.antt =====
-- Filters of strictly sorted lists, and the deletion at the place that `bisect` finds.
use Prim.Native.Nat.{ℕ, zero, suc}
use mathlib.Core.Path.{◌≡◌, refl, sym, ◌∙◌, ap, subst}
use mathlib.Core.Logic.{inl, inr}
use mathlib.Core.Bool.{Bool, true, false}
use mathlib.Core.Option.{Option, none, some}
use mathlib.Core.List.{List, [], ◌∷◌}
use native.Mathlib.Omega.{arith}
use pyverge.Prelude.Tests.{Ordering, if◌then◌else◌, Bool-cases, ltb}
use pyverge.Prelude.Lists.{get_elem?, keep_if, length, keep_if-All}
use pyverge.Prelude.Linear.{Linear, lt, eq, eq_iff}
use pyverge.Prelude.Sorted.{
  insort_left, find_at, remove_at, bisect_left, delete_at, IsBelow, IsSorted, find_at-cons,
  find_at-nil, insort_left-nil, insort_left-cons, remove_at-nil, remove_at-cons, IsBelow-trans,
  matching,
}

module _ {ℓ κ} {A : Type ℓ} {K : Type κ} ⦃o : Linear K⦄ (id : A → K) where
  insort_left-below : (x : A) (ys : List A) → IsBelow id (id x) ys → insort_left id x ys ≡ x ∷ ys
  insort_left-below x [] b = insort_left-nil id x
  insort_left-below x (y ∷ ys) b =
      let e : lt (id y) (id x) ≡ false = ground (arith, b.0, o.cmp_swap (id x) (id y)) in
      insort_left-cons id x y ys ∙ rw e refl

  remove_at-below : (k : K) (ys : List A) → IsBelow id k ys → remove_at id ys k ≡ ys
  remove_at-below k [] b = remove_at-nil id k
  remove_at-below k (y ∷ ys) b =
      let e : lt (id y) k ≡ false = ground (arith, b.0, o.cmp_swap k (id y)) in
      let f : eq (id y) k ≡ false = ground (arith, b.0, o.cmp_swap k (id y)) in
      remove_at-cons id y ys k ∙ rw (e, f) refl

  -- Nothing before an item that is not less stands behind it.
  IsBelow-from :
      (k : K) (y : A) (ys : List A) → lt (id y) k ≡ false → IsBelow id (id y) ys → IsBelow id k ys
  IsBelow-from k y ys h b = elim (Bool-cases (eq (id y) k)) [
    | inl same ↦ subst (λ j. IsBelow id j ys) ((eq_iff (id y) k).0 same) b
    | inr other ↦
        let above : o.cmp k (id y) ≡ Ordering.lt = ground (arith, o.cmp_swap (id y) k) in
        IsBelow-trans id k (id y) ys above b
  ]

  module _ (p : A → Bool) where
    pub keep_if-insort_left :
        (x : A) (xs : List A)
        → IsSorted id xs
        → keep_if p (insort_left id x xs)
          ≡ (if p x then insort_left id x (keep_if p xs) else keep_if p xs)
    keep_if-insort_left x [] s = rw (insort_left-nil id x) refl
    keep_if-insort_left x (y ∷ xs) s = elim (Bool-cases (lt (id y) (id x))) [
      | inl less ↦
          let rest = keep_if-insort_left x xs s.1 in
          rw (insort_left-cons id x y xs, less)
            (elim (Bool-cases (p x)) [
              | inl px ↦ elim (Bool-cases (p y)) [
                | inl py ↦
                    rw (px, py)
                      (ap (λ t. y ∷ t) (rw px at rest)
                        ∙ sym (insort_left-cons id x y (keep_if p xs) ∙ rw less refl))
                | inr py ↦ rw (px, py) (rw px at rest)
              ]
              | inr px ↦ elim (Bool-cases (p y)) [
                | inl py ↦ rw (px, py) (ap (λ t. y ∷ t) (rw px at rest))
                | inr py ↦ rw (px, py) (rw px at rest)
              ]
            ])
      | inr more ↦
          let below =
            keep_if-All p (λ z. o.cmp (id x) (id z) ≡ Ordering.lt) xs
              (IsBelow-from (id x) y xs more s.0) in
          rw (insort_left-cons id x y xs, more)
            (elim (Bool-cases (p x)) [
              | inl px ↦ elim (Bool-cases (p y)) [
                | inl py ↦ rw (px, py) (sym (insort_left-cons id x y (keep_if p xs) ∙ rw more refl))
                | inr py ↦ rw (px, py) (sym (insort_left-below x (keep_if p xs) below))
              ]
              | inr px ↦ rw px refl
            ])
    ]

    pub keep_if-remove_at :
        (k : K) (xs : List A)
        → IsSorted id xs
        → keep_if p (remove_at id xs k) ≡ remove_at id (keep_if p xs) k
    keep_if-remove_at k [] s = rw (remove_at-nil id k) refl
    keep_if-remove_at k (y ∷ xs) s =
        let rest = keep_if-remove_at k xs s.1 in
        rw (remove_at-cons id y xs k) (elim (Bool-cases (lt (id y) k)) [
          | inl less ↦ rw less (elim (Bool-cases (p y)) [
            | inl py ↦
                rw py
                  (ap (λ t. y ∷ t) rest ∙ sym (remove_at-cons id y (keep_if p xs) k ∙ rw less refl))
            | inr py ↦ rw py rest
          ])
          | inr more ↦
              let below =
                keep_if-All p (λ z. o.cmp k (id z) ≡ Ordering.lt) xs
                  (IsBelow-from k y xs more s.0) in
              rw more (elim (Bool-cases (p y)) [
                | inl py ↦ elim (Bool-cases (eq (id y) k)) [
                  | inl here ↦
                      rw (here, py)
                        (sym (remove_at-cons id y (keep_if p xs) k ∙ rw (more, here) refl))
                  | inr past ↦
                      rw (past, py)
                        (sym (remove_at-cons id y (keep_if p xs) k ∙ rw (more, past) refl))
                ]
                | inr py ↦ elim (Bool-cases (eq (id y) k)) [
                  | inl here ↦ rw (here, py) (sym (remove_at-below k (keep_if p xs) below))
                  | inr past ↦ rw (past, py) (sym (remove_at-below k (keep_if p xs) below))
                ]
              ])
        ])

    -- A filter that drops the identity does not see its removal.
    pub keep_if-remove_at_other :
        (k : K) (xs : List A)
        → ((x : A) → id x ≡ k → p x ≡ false)
        → keep_if p (remove_at id xs k) ≡ keep_if p xs
    keep_if-remove_at_other k [] h = rw (remove_at-nil id k) refl
    keep_if-remove_at_other k (y ∷ xs) h =
        rw (remove_at-cons id y xs k) (elim (Bool-cases (lt (id y) k)) [
          | inl less ↦ rw (less, keep_if-remove_at_other k xs h) refl
          | inr more ↦ elim (Bool-cases (eq (id y) k)) [
            | inl here ↦ let py = h y ((eq_iff (id y) k).0 here) in rw (more, here, py) refl
            | inr past ↦ rw (more, past) refl
          ]
        ])

    pub find_at-keep_if :
        (k : K) (xs : List A) (x : A)
        → IsSorted id xs
        → find_at id xs k ≡ some x
        → p x ≡ true
        → find_at id (keep_if p xs) k ≡ some x
    find_at-keep_if k [] x s h px = absurd (let e = find_at-nil id k in cc)
    find_at-keep_if k (y ∷ xs) x s h px = elim (Bool-cases (lt (id y) k)) [
      | inl less ↦
          let later : find_at id xs k ≡ some x = sym (find_at-cons id y xs k ∙ rw less refl) ∙ h in
          let rest = find_at-keep_if k xs x s.1 later px in
          elim (Bool-cases (p y)) [
            | inl py ↦ rw py (find_at-cons id y (keep_if p xs) k ∙ rw less rest)
            | inr py ↦ rw py rest
          ]
      | inr more ↦ elim (Bool-cases (eq (id y) k)) [
        | inl here ↦
            let same : some y ≡ some x = sym (find_at-cons id y xs k ∙ rw (more, here) refl) ∙ h in
            let py : p y ≡ true =
              subst (λ o. elim o [ none ↦ Unit | some z ↦ p z ≡ true ]) (sym same) px in
            rw py (find_at-cons id y (keep_if p xs) k ∙ rw (more, here) same)
        | inr past ↦
            let bad : none ≡ some x = sym (find_at-cons id y xs k ∙ rw (more, past) refl) ∙ h in
            absurd cc
      ]
    ]

get_elem?-within :
    {A : Type 0} (xs : List A) (i : ℕ) (x : A) → get_elem? xs i ≡ some x → ltb i (length xs) ≡ true
get_elem?-within [] i x h = cc
get_elem?-within (y ∷ xs) zero x h = ground arith
get_elem?-within (y ∷ xs) (suc i) x h = ground (arith, get_elem?-within xs i x h)

module _ {κ} {A : Type 0} {K : Type κ} ⦃o : Linear K⦄ (id : A → K) where
  -- Where an identity is found, the place is in the list, and the deletion there removes it.
  pub delete_at-found :
      (k : K) (xs : List A) (x : A)
      → find_at id xs k ≡ some x
      → (ltb (bisect_left id xs k) (length xs) ≡ true)
        × (delete_at (bisect_left id xs k) xs ≡ remove_at id xs k)
  unfolding find_at remove_at
  delete_at-found k xs x h = (
    go (get_elem? xs (bisect_left id xs k)) refl h,
    sym (ap (λ f. elim f [ none ↦ xs | some y ↦ delete_at (bisect_left id xs k) xs ]) h),
  )
    where
      go :
          (found : Option A)
          → get_elem? xs (bisect_left id xs k) ≡ found
          → matching id k found ≡ some x
          → ltb (bisect_left id xs k) (length xs) ≡ true
      go none e h = cc
      go (some y) e h = get_elem?-within xs (bisect_left id xs k) y e
