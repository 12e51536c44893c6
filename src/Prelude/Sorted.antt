-- ===== src/Prelude/Sorted.antt =====
-- Python's `bisect` on lists that are sorted without repetition, by the identity of the items.
use Prim.Native.Nat.{ℕ, zero, suc}
use mathlib.Core.Path.{◌≡◌, refl, subst}
use mathlib.Core.Logic.{inl, inr}
use mathlib.Core.Bool.{false}
use mathlib.Core.Option.{Option, none, some}
use mathlib.Core.List.{List, [], ◌∷◌}
use native.Mathlib.Omega.{arith}
use pyverge.Prelude.Tests.{Ordering, if◌then◌else◌, Bool-cases}
use pyverge.Prelude.Lists.{get_elem?, All}
use pyverge.Prelude.Linear.{Linear, lt, eq, eq_iff}

-- `list.insert(i, x)` and `del list[i]`; out of range, the end and nothing.
module _ {ℓ} {A : Type ℓ} where
  abbrev pub insert_at : ℕ → A → List A → List A
  insert_at zero x ys = x ∷ ys
  insert_at (suc i) x [] = x ∷ []
  insert_at (suc i) x (y ∷ ys) = y ∷ insert_at i x ys

  abbrev pub delete_at : ℕ → List A → List A
  delete_at i [] = []
  delete_at zero (y ∷ ys) = ys
  delete_at (suc i) (y ∷ ys) = y ∷ delete_at i ys

module _ {ℓ κ} {A : Type ℓ} {K : Type κ} ⦃o : Linear K⦄ (id : A → K) where
  -- `bisect.bisect_left(xs, k)`: how many items stand before `k`.
  unfoldable pub bisect_left : List A → K → ℕ
  bisect_left [] k = 0
  bisect_left (x ∷ xs) k = let rest = bisect_left xs k in if lt (id x) k then suc rest else 0

  -- `bisect.insort_left(xs, x)`
  unfoldable pub insort_left : A → List A → List A
  unfolding bisect_left
  insort_left x xs = insert_at (bisect_left xs (id x)) x xs

  abbrev pub matching : K → Option A → Option A
  matching k none = none
  matching k (some x) = if eq (id x) k then some x else none

  -- `idx = bisect_left(xs, k); xs[idx] if idx < len(xs) and xs[idx] == k else None`
  unfoldable pub find_at : List A → K → Option A
  unfolding bisect_left
  find_at xs k = matching k (get_elem? xs (bisect_left xs k))

  -- `del xs[bisect_left(xs, k)]`, guarded by the same test.
  unfoldable pub remove_at : List A → K → List A
  unfolding bisect_left find_at
  remove_at xs k = elim (find_at xs k) [ none ↦ xs | some x ↦ delete_at (bisect_left xs k) xs ]

  -- Strictly ascending identities.
  abbrev pub IsBelow : K → List A → Type 0
  IsBelow k xs = All (λ y. o.cmp k (id y) ≡ Ordering.lt) xs

  abbrev pub IsSorted : List A → Type 0
  IsSorted [] = Unit
  IsSorted (x ∷ xs) = IsBelow (id x) xs × IsSorted xs

  pub IsBelow-trans :
      (j k : K) (xs : List A) → o.cmp j k ≡ Ordering.lt → IsBelow k xs → IsBelow j xs
  IsBelow-trans j k [] h b = tt
  IsBelow-trans j k (x ∷ xs) h b = (o.cmp_trans j k (id x) h b.0, IsBelow-trans j k xs h b.1)

  pub find_at-below : (k : K) (xs : List A) → IsBelow k xs → find_at xs k ≡ none
  unfolding find_at
  find_at-below k [] b = refl
  find_at-below k (x ∷ xs) b = ground (arith, o.cmp_swap k (id x), b.0)

  -- From an item on, nothing before it is found.
  find_at-below-at :
      (y : A) (xs : List A) (k : K) → IsBelow (id y) xs → lt (id y) k ≡ false → find_at xs k ≡ none
  find_at-below-at y xs k b h = elim (Bool-cases (eq (id y) k)) [
    | inl same ↦ find_at-below k xs (subst (λ j. IsBelow j xs) ((eq_iff (id y) k).0 same) b)
    | inr other ↦
        let above : o.cmp k (id y) ≡ Ordering.lt = ground (arith, o.cmp_swap (id y) k) in
        find_at-below k xs (IsBelow-trans k (id y) xs above b)
  ]

  pub find_at-cons :
      (x : A) (xs : List A) (k : K)
      → find_at (x ∷ xs) k
        ≡ (if lt (id x) k then find_at xs k else if eq (id x) k then some x else none)
  unfolding find_at
  find_at-cons x xs k = ground arith

  pub find_at-nil : (k : K) → find_at [] k ≡ none
  unfolding find_at
  find_at-nil k = refl

  pub insort_left-nil : (x : A) → insort_left x [] ≡ x ∷ []
  unfolding insort_left
  insort_left-nil x = refl

  pub insort_left-cons :
      (x y : A) (xs : List A)
      → insort_left x (y ∷ xs) ≡ (if lt (id y) (id x) then y ∷ insort_left x xs else x ∷ y ∷ xs)
  unfolding insort_left
  insort_left-cons x y xs = ground arith

  pub remove_at-nil : (k : K) → remove_at [] k ≡ []
  unfolding remove_at
  remove_at-nil k = refl

  pub remove_at-cons :
      (x : A) (xs : List A) (k : K)
      → remove_at (x ∷ xs) k
        ≡ (if lt (id x) k then x ∷ remove_at xs k else if eq (id x) k then xs else x ∷ xs)
  unfolding remove_at
  remove_at-cons x xs k = ground arith

  -- Looking up after an insertion of a new identity.
  pub find_at-insort_left :
      (x : A) (xs : List A) (k : K)
      → IsSorted xs
      → find_at xs (id x) ≡ none
      → find_at (insort_left x xs) k ≡ (if eq (id x) k then some x else find_at xs k)
  find_at-insort_left x [] k s new =
      rw (insort_left-nil x, find_at-cons x [] k, find_at-nil) (ground (arith, o.cmp_eq (id x) k))
  find_at-insort_left x (y ∷ xs) k s new = rw insort_left-cons (
      ground (
        arith,
        find_at-insort_left x xs k s.1,
        find_at-cons y xs (id x),
        find_at-cons y xs k,
        find_at-cons y (insort_left x xs) k,
        find_at-cons x (y ∷ xs) k,
        o.cmp_eq (id x) k,
        o.cmp_eq (id y) (id x),
        o.cmp_swap (id y) (id x),
        o.cmp_swap (id x) k,
        o.cmp_swap (id y) k,
        o.cmp_trans k (id x) (id y),
        o.cmp_trans (id y) (id x) k,
      ))

  IsBelow-insort_left :
      (k : K) (x : A) (xs : List A)
      → o.cmp k (id x) ≡ Ordering.lt
      → IsBelow k xs
      → IsBelow k (insort_left x xs)
  IsBelow-insort_left k x [] h b = rw (insort_left-nil x) (h, tt)
  IsBelow-insort_left k x (y ∷ xs) h b = rw insort_left-cons (elim (Bool-cases (lt (id y) (id x))) [
    | inl less ↦ rw less (b.0, IsBelow-insort_left k x xs h b.1)
    | inr more ↦ rw more (h, b)
  ])

  pub insort_left-IsSorted :
      (x : A) (xs : List A) → IsSorted xs → find_at xs (id x) ≡ none → IsSorted (insort_left x xs)
  insort_left-IsSorted x [] s new = rw (insort_left-nil x) (tt, tt)
  insort_left-IsSorted x (y ∷ xs) s new =
      rw insort_left-cons (elim (Bool-cases (lt (id y) (id x))) [
        | inl less ↦
            let below : o.cmp (id y) (id x) ≡ Ordering.lt = ground arith in
            let absent : find_at xs (id x) ≡ none = ground (arith, find_at-cons y xs (id x)) in
            rw less
              (IsBelow-insort_left (id y) x xs below s.0, insort_left-IsSorted x xs s.1 absent)
        | inr more ↦
            let above : o.cmp (id x) (id y) ≡ Ordering.lt =
              ground (arith, find_at-cons y xs (id x), o.cmp_swap (id y) (id x)) in
            rw more ((above, IsBelow-trans (id x) (id y) xs above s.0), s)
      ])

  IsBelow-remove_at : (k j : K) (xs : List A) → IsBelow k xs → IsBelow k (remove_at xs j)
  IsBelow-remove_at k j [] b = rw remove_at-nil tt
  IsBelow-remove_at k j (y ∷ xs) b = rw remove_at-cons (elim (Bool-cases (lt (id y) j)) [
    | inl less ↦ rw less (b.0, IsBelow-remove_at k j xs b.1)
    | inr more ↦
        rw more (elim (Bool-cases (eq (id y) j)) [ inl here ↦ rw here b.1 | inr past ↦ rw past b ])
  ])

  pub remove_at-IsSorted : (xs : List A) (k : K) → IsSorted xs → IsSorted (remove_at xs k)
  remove_at-IsSorted [] k s = rw remove_at-nil tt
  remove_at-IsSorted (y ∷ xs) k s = rw remove_at-cons (elim (Bool-cases (lt (id y) k)) [
    | inl less ↦ rw less (IsBelow-remove_at (id y) k xs s.0, remove_at-IsSorted xs k s.1)
    | inr more ↦
        rw more (elim (Bool-cases (eq (id y) k)) [ inl here ↦ rw here s.1 | inr past ↦ rw past s ])
  ])

  -- Looking up after a removal.
  pub find_at-remove_at :
      (xs : List A) (j k : K)
      → IsSorted xs
      → find_at (remove_at xs j) k ≡ (if eq j k then none else find_at xs k)
  find_at-remove_at [] j k s = rw (remove_at-nil, find_at-nil) (ground arith)
  find_at-remove_at (y ∷ xs) j k s = rw remove_at-cons (
      ground (
        arith,
        find_at-remove_at xs j k s.1,
        find_at-cons y xs k,
        find_at-cons y (remove_at xs j) k,
        find_at-below-at y xs k s.0,
        o.cmp_eq j k,
        o.cmp_eq (id y) j,
        o.cmp_swap (id y) j,
        o.cmp_swap (id y) k,
        o.cmp_swap j k,
        o.cmp_trans k j (id y),
        o.cmp_trans j k (id y),
        o.cmp_trans j (id y) k,
      ))

  -- What is found has the identity that was asked for.
  pub find_at-id : (xs : List A) (k : K) (x : A) → find_at xs k ≡ some x → id x ≡ k
  unfolding find_at
  find_at-id xs k x h = go (get_elem? xs (bisect_left xs k)) h
    where
      go : (found : Option A) → matching k found ≡ some x → id x ≡ k
      go none h = cc
      go (some y) h = ground (arith, o.cmp_eq (id y) k)

  -- `sorted(xs)`, which keeps the order of equal items.
  unfoldable pub sorted : List A → List A
  unfolding insort_left
  sorted [] = []
  sorted (x ∷ xs) = insort_left x (sorted xs)
