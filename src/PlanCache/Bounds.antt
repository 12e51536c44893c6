-- ===== src/PlanCache/Bounds.antt =====
-- The bound of the cache, and what an eviction keeps.
use pyverge.Prelude.{
  ℕ, zero, suc, ◌-◌, ◌≤◌, ◌≡◌, refl, false, none, some, List, [], ◌∷◌, ◌++◌, length, length-append,
  ltb, Eq, beq_refl, arith, Bool-cases, inl, inr,
}
use pyverge.Prelude.Int.{ℤ, pos, negsuc}
use pyverge.Prelude.Dict.{Dict, get, del_item, get-append}
use pyverge.Prelude.Keys.{IsDict, move_to_end-set_item, get-del_item_self}
use pyverge.PlanCache.{PlanCache, evict, bounded, lookup, put, is_disabled}

abbrev pub drop {ℓ} : {A : Type ℓ} → ℕ → List A → List A
drop zero xs = xs
drop (suc n) [] = []
drop (suc n) (x ∷ xs) = drop n xs

module _ {ℓ} {K V : Type ℓ} where
  pub length-evict-le : (n : ℕ) (d : Dict K V) → length (evict n d) ≤ n
  unfolding evict
  length-evict-le n [] = omega arith
  length-evict-le n (x ∷ d) = ground (arith, length-evict-le n d)

  -- The loop drops exactly the oldest items that are too many.
  evict-drop : (n : ℕ) (d : Dict K V) → evict n d ≡ drop (length d - n) d
  unfolding evict
  evict-drop n [] = ground arith
  evict-drop n (x ∷ d) = elim (Bool-cases (ltb n (suc (length d)))) [
    | inl over ↦
        let e : suc (length d) - n ≡ suc (length d - n) = ground arith in
        rw (over, e) (evict-drop n d)
    | inr fits ↦ let e : suc (length d) - n ≡ 0 = ground arith in rw (fits, e)
  ]

  evict-snoc :
      (n : ℕ) (x : K × V) (d : Dict K V) → evict (suc n) (d ++ x ∷ []) ≡ evict n d ++ x ∷ []
  unfolding evict
  evict-snoc n x [] = ground arith
  evict-snoc n x (y ∷ d) = ground (arith, evict-snoc n x d, length-append d (x ∷ []))

-- What a bound leaves of a dictionary: all, or the newest.
abbrev pub newest {ℓ} : {A : Type ℓ} → ℤ → List A → List A
newest (pos n) d = drop (length d - n) d
newest (negsuc n) d = d

module _ {ℓ} {K V : Type ℓ} ⦃e : Eq K⦄ where
  -- `put` on a cache that is not disabled: the key goes to the newest end, and of the result the
  -- newest `size` items stay, or all for an unbounded cache.
  pub put-newest :
      (key : K) (plan : V) (c : PlanCache K V)
      → is_disabled c.size ≡ false
      → (put key plan c).entries ≡ newest c.size (del_item key c.entries ++ (key, plan) ∷ [])
  unfolding put bounded
  put-newest key plan c on = go c.size on
    where
      go :
          (size : ℤ)
          → is_disabled size ≡ false
          → (put key plan (record { size = size; entries = c.entries })).entries
            ≡ newest size (del_item key c.entries ++ (key, plan) ∷ [])
      go (pos zero) on = cc
      go (pos (suc n)) on = rw move_to_end-set_item (evict-drop (suc n) _)
      go (negsuc n) on = move_to_end-set_item key plan c.entries

  get-evict-none : (n : ℕ) (k : K) (d : Dict K V) → get k d ≡ none → get k (evict n d) ≡ none
  unfolding evict get
  get-evict-none n k [] h = refl
  get-evict-none n k ((j, v) ∷ d) h = ground (arith, get-evict-none n k d)

  -- An eviction loses keys, and never changes the value of one.
  pub get-evict :
      (n : ℕ) (k : K) (d : Dict K V) {v : V}
      → IsDict d
      → get k (evict n d) ≡ some v
      → get k d ≡ some v
  unfolding evict get
  get-evict n k [] u h = h
  get-evict n k ((j, w) ∷ d) u h = elim (Bool-cases (ltb n (suc (length d)))) [
    | inl over ↦
        let still = get-evict n k d u.1 (rw over at h) in ground (arith, still, e.same_iff j k)
    | inr fits ↦ rw fits at h
  ]

  get-evict_snoc :
      (n : ℕ) (k : K) (v : V) (d : Dict K V)
      → get k d ≡ none
      → get k (evict (suc n) (d ++ (k, v) ∷ [])) ≡ some v
  unfolding get
  get-evict_snoc n k v d new = rw (evict-snoc, get-append, get-evict-none n k d new, beq_refl)

  -- A plan that was put is found by the next lookup of its key.
  pub lookup-put_self :
      (key : K) (plan : V) (c : PlanCache K V)
      → is_disabled c.size ≡ false
      → (lookup key (put key plan c)).0 ≡ some plan
  unfolding lookup put bounded get
  lookup-put_self key plan c on = go c.size on
    where
      old : Dict K V
      old = del_item key c.entries

      go :
          (size : ℤ)
          → is_disabled size ≡ false
          → (lookup key (put key plan (record { size = size; entries = c.entries }))).0 ≡ some plan
      go (pos zero) on = cc
      go (pos (suc n)) on =
          rw move_to_end-set_item (get-evict_snoc n key plan old (get-del_item_self key c.entries))
      go (negsuc n) on = rw (move_to_end-set_item, get-append, get-del_item_self, beq_refl)

  pub evict-IsDict : (n : ℕ) (d : Dict K V) → IsDict d → IsDict (evict n d)
  unfolding evict
  evict-IsDict n [] u = tt
  evict-IsDict n ((j, w) ∷ d) u = ground (arith, evict-IsDict n d u.1)
