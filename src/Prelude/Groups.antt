-- ===== src/Prelude/Groups.antt =====
-- Loops that sort items into the lists, or sets, of a dictionary.
use mathlib.Core.Path.{◌≡◌, refl}
use mathlib.Core.Logic.{◌⊎◌, inl, inr}
use mathlib.Core.Bool.{Bool, true, false}
use mathlib.Core.Option.{Option, none, some}
use mathlib.Core.List.{List, [], ◌∷◌, ◌++◌, append_assoc, append-nil}
use native.Mathlib.Omega.{arith}
use pyverge.Prelude.Tests.{if◌then◌else◌, Eq, ◌==◌, Bool-cases}
use pyverge.Prelude.Lists.{keep_if}
use pyverge.Prelude.Dict.{Dict, get, set_item, get-set_item}

abbrev pub or_empty {ℓ} : {A : Type ℓ} → Option (List A) → List A
or_empty none = []
or_empty (some xs) = xs

module _ {ℓ κ} {K : Type ℓ} {A : Type κ} ⦃e : Eq K⦄ where
  -- `d.get(k, ())`
  unfoldable pub bucket : K → Dict K (List A) → List A
  bucket k d = or_empty (get k d)

  -- `d.setdefault(k, []).append(x)`
  unfoldable pub append_to : K → A → Dict K (List A) → Dict K (List A)
  unfolding bucket
  append_to k x d = set_item k (bucket k d ++ x ∷ []) d

  pub bucket-append_to :
      (k j : K) (x : A) (d : Dict K (List A))
      → bucket j (append_to k x d) ≡ (if k == j then bucket j d ++ x ∷ [] else bucket j d)
  unfolding bucket append_to
  bucket-append_to k j x d = rw get-set_item (ground (arith, e.same_iff k j))

  -- `for x in xs: d.setdefault(key(x), []).append(x)`
  unfoldable pub group_by : (A → K) → Dict K (List A) → List A → Dict K (List A)
  unfolding append_to
  group_by key d [] = d
  group_by key d (x ∷ xs) = group_by key (append_to (key x) x d) xs

  -- A bucket of the grouped items: those with its key, in their order.
  pub bucket-group_by :
      (key : A → K) (d : Dict K (List A)) (xs : List A) (k : K)
      → bucket k (group_by key d xs) ≡ bucket k d ++ keep_if (λ x. key x == k) xs
  unfolding group_by
  bucket-group_by key d [] k = rw append-nil
  bucket-group_by key d (x ∷ xs) k =
      rw (bucket-group_by key (append_to (key x) x d) xs k, bucket-append_to)
        (elim (Bool-cases (key x == k)) [
          | inl here ↦ rw here (append_assoc (bucket k d) (x ∷ []) _)
          | inr there ↦ rw there
        ])

  -- `{key(x): x for x in xs}`: a later item replaces an earlier one of its key.
  unfoldable pub index_by : (A → K) → Dict K A → List A → Dict K A
  index_by key d [] = d
  index_by key d (x ∷ xs) = index_by key (set_item (key x) x d) xs

  -- The last item of a key.
  unfoldable pub last_of : (A → K) → K → Option A → List A → Option A
  last_of key k before [] = before
  last_of key k before (x ∷ xs) = last_of key k (if key x == k then some x else before) xs

  pub get-index_by :
      (key : A → K) (d : Dict K A) (xs : List A) (k : K)
      → get k (index_by key d xs) ≡ last_of key k (get k d) xs
  unfolding index_by last_of
  get-index_by key d [] k = refl
  get-index_by key d (x ∷ xs) k = rw (get-index_by key (set_item (key x) x d) xs k, get-set_item)

  pub last_of-keep :
      (key : A → K) (k : K) (before : Option A) (xs : List A) (x : A)
      → last_of key k before xs ≡ some x
      → (before ≡ some x) ⊎ (key x ≡ k)
  unfolding last_of
  last_of-keep key k before [] x h = inl h
  last_of-keep key k before (y ∷ xs) x h =
      ground (
        arith,
        last_of-keep key k (if key y == k then some y else before) xs x,
        e.same_iff (key y) k,
      )

-- Sets, as lists without repetition.
module _ {κ} {A : Type κ} ⦃e : Eq A⦄ where
  unfoldable pub contains : A → List A → Bool
  contains a [] = false
  contains a (x ∷ xs) = if x == a then true else contains a xs

  -- `s.add(a)`
  unfoldable pub add : A → List A → List A
  unfolding contains
  add a xs = if contains a xs then xs else xs ++ a ∷ []

  -- `s.discard(a)`
  unfoldable pub discard : A → List A → List A
  discard a [] = []
  discard a (x ∷ xs) = let rest = discard a xs in if x == a then rest else x ∷ rest

  pub contains-append :
      (a : A) (xs ys : List A)
      → contains a (xs ++ ys) ≡ (if contains a xs then true else contains a ys)
  unfolding contains
  contains-append a [] ys = refl
  contains-append a (x ∷ xs) ys = ground (arith, contains-append a xs ys)

  pub contains-add :
      (a b : A) (xs : List A) → contains b (add a xs) ≡ (if a == b then true else contains b xs)
  unfolding add
  contains-add a b xs = elim (Bool-cases (contains a xs)) [
    | inl old ↦ rw old (ground (arith, e.same_iff a b))
    | inr new ↦ rw (new, contains-append) (unfold contains in ground arith)
  ]

  pub contains-discard :
      (a b : A) (xs : List A)
      → contains b (discard a xs) ≡ (if a == b then false else contains b xs)
  unfolding contains discard
  contains-discard a b [] = ground arith
  contains-discard a b (x ∷ xs) =
      ground (arith, contains-discard a b xs, e.same_iff a b, e.same_iff x a, e.same_iff x b)
