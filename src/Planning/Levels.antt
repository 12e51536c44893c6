-- ===== src/Planning/Levels.antt =====
-- `PathPlan.levels`: it ends, it loses and repeats no entry, and a level comes after those below it.
use pyverge.Prelude.{
  ℕ, zero, suc, ◌+◌, ◌≤◌, ◌≡◌, refl, sym, subst, ◌∙◌, ap, Bool, true, false, not, ◌&&◌, List, [],
  ◌∷◌, ◌++◌, length, keep_if, All, keep_if-All, All-map, Bool-cases, inl, inr, arith, All-both,
}
use pyverge.Planning.{
  PlanEntry, same_object, is_descendant_of, is_ready, is_chosen, rounds, levels, flat,
}
use pyverge.Planning.Filters.{
  count, any_of→All-false, count-split, count-append, count-true, All-append, All-passed,
}
use pyverge.Planning.Ready.{AreObjects, not_below, some_ready, some_ready-pos, chosen_ready}

module _ {E : Type 0} where
  abbrev left : List (PlanEntry E) → List (PlanEntry E)
  left xs = keep_if (λ x. not (is_chosen (keep_if (is_ready xs) xs) x)) xs

  -- One round, on entries that are objects.
  rounds-step :
      (n : ℕ) (e : PlanEntry E) (es : List (PlanEntry E))
      → rounds (suc n) (e ∷ es) ≡ keep_if (is_ready (e ∷ es)) (e ∷ es) ∷ rounds n (left (e ∷ es))
  unfolding rounds
  rounds-step n e es =
      ap (λ ready. ready ∷ rounds n (keep_if (λ x. not (is_chosen ready x)) (e ∷ es)))
        (some_ready e es)

  left-AreObjects : (xs : List (PlanEntry E)) → AreObjects xs → AreObjects (left xs)
  left-AreObjects xs objects =
      All-map
        (λ a h.
          keep_if-All (λ x. not (is_chosen (keep_if (is_ready xs) xs) x))
            (λ b. same_object a b ≡ true → a ≡ b) xs h)
        (left xs)
        (keep_if-All (λ x. not (is_chosen (keep_if (is_ready xs) xs) x))
          (λ a. All (λ b. same_object a b ≡ true → a ≡ b) xs) xs objects)

  left-split :
      (p : PlanEntry E → Bool) (xs : List (PlanEntry E))
      → AreObjects xs
      → count p (keep_if (is_ready xs) xs) + count p (left xs) ≡ count p xs
  left-split p xs objects =
      count-split p (is_ready xs) (λ x. not (is_chosen (keep_if (is_ready xs) xs) x)) xs
        (chosen_ready (is_ready xs) xs objects)

  left-shorter :
      (n : ℕ) (e : PlanEntry E) (es : List (PlanEntry E))
      → AreObjects (e ∷ es)
      → length (e ∷ es) ≤ suc n
      → length (left (e ∷ es)) ≤ n
  left-shorter n e es objects enough =
      let all = left-split (λ x. true) (e ∷ es) objects in
      let ready = count-true (keep_if (is_ready (e ∷ es)) (e ∷ es)) in
      let rest = count-true (left (e ∷ es)) in
      let whole = count-true (e ∷ es) in let some' = some_ready-pos e es in omega arith

  rounds-count :
      (p : PlanEntry E → Bool) (n : ℕ) (xs : List (PlanEntry E))
      → AreObjects xs
      → length xs ≤ n
      → count p (flat (rounds n xs)) ≡ count p xs
  unfolding rounds
  rounds-count p zero [] objects enough = refl
  rounds-count p zero (e ∷ es) objects enough = absurd (omega arith)
  rounds-count p (suc n) [] objects enough = refl
  rounds-count p (suc n) (e ∷ es) objects enough =
      ap (λ ls. count p (flat ls)) (rounds-step n e es)
      ∙ count-append p (keep_if (is_ready (e ∷ es)) (e ∷ es)) (flat (rounds n (left (e ∷ es))))
      ∙ ap (λ c. count p (keep_if (is_ready (e ∷ es)) (e ∷ es)) + c)
          (rounds-count p n (left (e ∷ es)) (left-AreObjects (e ∷ es) objects)
            (left-shorter n e es objects enough))
      ∙ left-split p (e ∷ es) objects

  rounds-All :
      (Q : PlanEntry E → Type 0) (n : ℕ) (xs : List (PlanEntry E))
      → All Q xs
      → All Q (flat (rounds n xs))
  unfolding rounds
  rounds-All Q zero xs h = tt
  rounds-All Q (suc n) [] h = tt
  rounds-All Q (suc n) (e ∷ es) h =
      subst (λ ls. All Q (flat ls)) (sym (rounds-step n e es))
        (All-append Q (keep_if (is_ready (e ∷ es)) (e ∷ es)) (flat (rounds n (left (e ∷ es))))
          (keep_if-All (is_ready (e ∷ es)) Q (e ∷ es) h)
          (rounds-All Q n (left (e ∷ es)) (
            keep_if-All (λ x. not (is_chosen (keep_if (is_ready (e ∷ es)) (e ∷ es)) x)) Q (e ∷ es)
              h)))

  -- No entry of a level has an entry below it in that level or a later one.
  abbrev pub IsBottomUp : List (List (PlanEntry E)) → Type 0
  IsBottomUp [] = Unit
  IsBottomUp (l ∷ ls) =
      All (λ a. All (λ b. is_descendant_of b.path a.path ≡ false) (l ++ flat ls)) l × IsBottomUp ls

  own_level :
      (xs : List (PlanEntry E)) (a : PlanEntry E)
      → All (λ b. same_object a b ≡ true → a ≡ b) xs
      → is_ready xs a ≡ true
      → All (λ b. is_descendant_of b.path a.path ≡ false) xs
  unfolding is_ready
  own_level xs a own ready =
      All-map (λ b f. apart b f.0 f.1) xs
        (All-both (λ b. same_object a b ≡ true → a ≡ b)
          (λ b. (not (same_object b a) && is_descendant_of b.path a.path) ≡ false) xs own
          (any_of→All-false (λ b. not (same_object b a) && is_descendant_of b.path a.path) xs
            (ground arith)))
    where
      apart :
          (b : PlanEntry E)
          → (same_object a b ≡ true → a ≡ b)
          → (not (same_object b a) && is_descendant_of b.path a.path) ≡ false
          → is_descendant_of b.path a.path ≡ false
      apart b own free = elim (Bool-cases (same_object a b)) [
        | inl same ↦
            subst (λ c. is_descendant_of c.path a.path ≡ false) (own same)
              (not_below a a (omega arith))
        | inr differ ↦ let d : same_object b a ≡ false = ground arith in rw d at free
      ]

  rounds-IsBottomUp : (n : ℕ) (xs : List (PlanEntry E)) → AreObjects xs → IsBottomUp (rounds n xs)
  unfolding rounds
  rounds-IsBottomUp zero xs objects = tt
  rounds-IsBottomUp (suc n) [] objects = tt
  rounds-IsBottomUp (suc n) (e ∷ es) objects = subst IsBottomUp (sym (rounds-step n e es)) (
    All-passed (is_ready (e ∷ es))
        (λ a.
          All (λ b. is_descendant_of b.path a.path ≡ false)
            (keep_if (is_ready (e ∷ es)) (e ∷ es) ++ flat (rounds n (left (e ∷ es)))))
        (e ∷ es)
        (All-map
          (λ a own ready.
            spread n (e ∷ es) (λ b. is_descendant_of b.path a.path ≡ false)
              (own_level (e ∷ es) a own ready))
          (e ∷ es) objects),
    rounds-IsBottomUp n (left (e ∷ es)) (left-AreObjects (e ∷ es) objects),
  )
    where
      spread :
          (n : ℕ) (xs : List (PlanEntry E)) (Q : PlanEntry E → Type 0)
          → All Q xs
          → All Q (keep_if (is_ready xs) xs ++ flat (rounds n (left xs)))
      spread n xs Q h =
          All-append Q (keep_if (is_ready xs) xs) (flat (rounds n (left xs)))
            (keep_if-All (is_ready xs) Q xs h)
            (rounds-All Q n (left xs)
              (keep_if-All (λ x. not (is_chosen (keep_if (is_ready xs) xs) x)) Q xs h))

  -- If entries that are one object are equal, the levels hold every entry exactly as often as the
  -- plan does, whichever entries are counted, and no entry has an entry below it in its own level
  -- or a later one.
  pub levels-IsBottomUp :
      (entries : List (PlanEntry E))
      → AreObjects entries
      → ((p : PlanEntry E → Bool) → count p (flat (levels entries)) ≡ count p entries)
        × IsBottomUp (levels entries)
  unfolding levels
  levels-IsBottomUp entries objects = (
    λ p. rounds-count p (length entries) entries objects (omega arith),
    rounds-IsBottomUp (length entries) entries objects,
  )

  -- What holds of the entries holds of those of the levels.
  pub levels-All :
      (Q : PlanEntry E → Type 0) (entries : List (PlanEntry E))
      → All Q entries
      → All Q (flat (levels entries))
  unfolding levels
  levels-All Q entries h = rounds-All Q (length entries) entries h
