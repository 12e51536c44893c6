-- ===== src/Execution/Layout.antt =====
-- What the order of a plan's levels and the difference of its paths give for each level.
use pyverge.Prelude.{
  ◌≤◌, ◌≡◌, subst, Bool, true, false, List, [], ◌∷◌, ◌++◌, All, All-map, All-both, arith,
  Bool-cases, inl, inr,
}
use pyverge.Errors
use pyverge.Errors.{Outcome, bind_inv}
use pyverge.Planning.{Step, PlanEntry, is_descendant_of}
use pyverge.Planning.Filters.{count}
use pyverge.Payload.{Value, subscript}
use pyverge.Payload
use pyverge.Payload.Places.{diverge}
use pyverge.Execution.{child_of}
use pyverge.Execution.Replace.{subscript_of_child}
use pyverge.Execution.Results.{find}
use pyverge.Execution.Passes.{Passes, path_eq, path_eq_refl, path_eq_iff, Passes-of, diverge-of}

pub get-find :
    (p : List Step) (v : Value) {x : Value} → find p v ≡ Errors.ok x → Payload.get p v ≡ Errors.ok x
unfolding find Payload.get
get-find [] v h = h
get-find (s ∷ p) v h =
    let (child, at, rest) = bind_inv (child_of v s) _ h in
    rw (subscript_of_child v s at) (get-find p child rest)

none_counted :
    {A : Type 0} (p : A → Bool) (xs : List A) → count p xs ≤ 0 → All (λ x. p x ≡ false) xs
none_counted p [] h = tt
none_counted p (x ∷ xs) h = elim (Bool-cases (p x)) [
  | inl e ↦ absurd (let k = rw e at h in omega arith)
  | inr n ↦ (n, none_counted p xs (rw n at h))
]

pub All-left : {A : Type 0} (Q : A → Type 0) (xs ys : List A) → All Q (xs ++ ys) → All Q xs
All-left Q [] ys h = tt
All-left Q (x ∷ xs) ys h = (h.0, All-left Q xs ys h.1)

pub All-right : {A : Type 0} (Q : A → Type 0) (xs ys : List A) → All Q (xs ++ ys) → All Q ys
All-right Q [] ys h = h
All-right Q (x ∷ xs) ys h = All-right Q xs ys h.1

module _ {E : Type 0} where
  -- No two entries have one path.
  abbrev pub AreDistinct : List (PlanEntry E) → Type 0
  AreDistinct entries = (q : List Step) → count (λ e. path_eq e.path q) entries ≤ 1

  abbrev pub Distinct : List (PlanEntry E) → Type 0
  Distinct [] = Unit
  Distinct (a ∷ l) = All (λ b. path_eq b.path a.path ≡ false) l × Distinct l

  pub Distinct-of : (l : List (PlanEntry E)) → AreDistinct l → Distinct l
  Distinct-of [] h = tt
  Distinct-of (a ∷ l) h = (
    none_counted (λ b. path_eq b.path a.path) l
        (let k = rw (path_eq_refl a.path) at (h a.path) in omega arith),
    Distinct-of l (λ q. ground (arith, h q)),
  )

  none_pass :
      (p : PlanEntry E → Bool) (l : List (PlanEntry E)) → All (λ x. p x ≡ false) l → count p l ≤ 0
  none_pass p [] h = omega arith
  none_pass p (x ∷ l) h = rw h.0 (none_pass p l h.1)

  -- Paths that differ pairwise are distinct.
  pub AreDistinct-of : (l : List (PlanEntry E)) → Distinct l → AreDistinct l
  AreDistinct-of [] h q = omega arith
  AreDistinct-of (a ∷ l) h q = elim (Bool-cases (path_eq a.path q)) [
    | inl e ↦
        let none_left =
          none_pass (λ b. path_eq b.path q) l
            (subst (λ p. All (λ b. path_eq b.path p ≡ false) l) ((path_eq_iff a.path q).0 e) h.0) in
        rw e (omega arith)
    | inr n ↦ rw n (AreDistinct-of l h.1 q)
  ]

  abbrev pub Diverging : List (PlanEntry E) → Type 0
  Diverging [] = Unit
  Diverging (a ∷ l) = All (λ b. diverge a.path b.path ≡ true) l × Diverging l

  abbrev pub AllPass : List (PlanEntry E) → List (PlanEntry E) → Type 0
  AllPass l r = All (λ a. All (λ b. Passes a.path b.path) r) l

  -- What the order of the levels and the difference of the paths give for one level.
  pub level_lem :
      (l r : List (PlanEntry E))
      → All (λ a. All (λ b. is_descendant_of b.path a.path ≡ false) (l ++ r)) l
      → Distinct (l ++ r)
      → Diverging l × AllPass l r × Distinct r
  level_lem [] r h d = (tt, tt, d)
  level_lem (a ∷ l) r h d =
      let (inside, pass, rest) = level_lem l r (All-map (λ b x. x.1) l h.1) d.1 in
      (
        (
          All-map (λ b x. diverge-of a.path b.path x.0 x.1.0 x.1.1) l
              (All-both (λ b. path_eq b.path a.path ≡ false)
                (λ b.
                  (is_descendant_of b.path a.path ≡ false)
                  × (is_descendant_of a.path b.path ≡ false))
                l (All-left _ l r d.0)
                (All-both _ _ l (All-left _ l r h.0.1) (All-map (λ b x. x.0) l h.1))),
          inside,
        ),
        (
          All-map (λ b x. Passes-of a.path b.path x.0 x.1) r
              (All-both _ _ r (All-right _ l r d.0) (All-right _ l r h.0.1)),
          pass,
        ),
        rest,
      )
