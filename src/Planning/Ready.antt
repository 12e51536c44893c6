-- ===== src/Planning/Ready.antt =====
-- The entries of a plan that are ready: there is always one, and the chosen ones are these.
use pyverge.Prelude.{
  ℕ, ◌≤◌, ◌≡◌, refl, sym, ◌∙◌, ap, Bool, true, false, not, ◌&&◌, List, [], ◌∷◌, length, keep_if,
  any_of, All, All-map, Bool-cases, inl, inr, ltb, arith, List-cases, All-both,
}
use pyverge.Planning.{PlanEntry, same_object, is_descendant_of, is_ready, or_first, is_chosen}
use pyverge.Planning.Filters.{All-false→any_of, keep_if-empty, any_of-keep_if, any_of_self}

module _ {E : Type 0} where
  -- An object has one path: entries that are one object are equal.
  abbrev pub AreObjects : List (PlanEntry E) → Type 0
  AreObjects entries = All (λ a. All (λ b. same_object a b ≡ true → a ≡ b) entries) entries

  abbrev size : PlanEntry E → ℕ
  size e = length e.path

  -- An entry that is as long as any.
  longest :
      (e : PlanEntry E) (es : List (PlanEntry E))
      → (m : PlanEntry E) × ((Q : PlanEntry E → Type 0) → All Q (e ∷ es) → Q m)
        × All (λ o. size o ≤ size m) (e ∷ es)
  longest e [] = (e, λ Q h. h.0, (omega arith, tt))
  longest e (f ∷ es) =
      let (m, among, most) = longest f es in
      elim (Bool-cases (ltb (size m) (size e))) [
        | inl longer ↦ (e, λ Q h. h.0, (omega arith, All-map (λ o h. ground arith) (f ∷ es) most))
        | inr shorter ↦ (m, λ Q h. among Q h.1, (ground arith, most))
      ]

  pub not_below : (o e : PlanEntry E) → size o ≤ size e → is_descendant_of o.path e.path ≡ false
  unfolding is_descendant_of
  not_below o e h = ground arith

  not_blocking :
      (o e : PlanEntry E)
      → size o ≤ size e
      → (not (same_object o e) && is_descendant_of o.path e.path) ≡ false
  not_blocking o e h = rw (not_below o e h) (ground arith)

  longest-is_ready :
      (es : List (PlanEntry E)) (m : PlanEntry E)
      → All (λ o. size o ≤ size m) es
      → is_ready es m ≡ true
  unfolding is_ready
  longest-is_ready es m most =
      let e =
        All-false→any_of (λ o. not (same_object o m) && is_descendant_of o.path m.path) es
          (All-map (λ o h. not_blocking o m h) es most) in
      rw e refl

  -- Some entry is always ready.
  pub some_ready :
      (e : PlanEntry E) (es : List (PlanEntry E))
      → or_first e (keep_if (is_ready (e ∷ es)) (e ∷ es)) ≡ keep_if (is_ready (e ∷ es)) (e ∷ es)
  some_ready e es = elim (List-cases (keep_if (is_ready (e ∷ es)) (e ∷ es))) [
    | inl empty ↦
        let (m, among, most) = longest e es in
        let idle =
          among (λ x. is_ready (e ∷ es) x ≡ false)
            (keep_if-empty (is_ready (e ∷ es)) (e ∷ es) empty) in
        let ready = longest-is_ready (e ∷ es) m most in absurd cc
    | inr (r, rs, filled) ↦ ap (or_first e) filled ∙ sym filled
  ]

  pub some_ready-pos :
      (e : PlanEntry E) (es : List (PlanEntry E))
      → 1 ≤ length (keep_if (is_ready (e ∷ es)) (e ∷ es))
  some_ready-pos e es = elim (List-cases (keep_if (is_ready (e ∷ es)) (e ∷ es))) [
    | inl empty ↦
        let (m, among, most) = longest e es in
        let idle =
          among (λ x. is_ready (e ∷ es) x ≡ false)
            (keep_if-empty (is_ready (e ∷ es)) (e ∷ es) empty) in
        let ready = longest-is_ready (e ∷ es) m most in absurd cc
    | inr (r, rs, filled) ↦ let l = ap length filled in omega arith
  ]

  -- An entry is chosen exactly when it is ready.
  pub chosen_ready :
      (q : PlanEntry E → Bool) (xs : List (PlanEntry E))
      → AreObjects xs
      → All (λ x. not (is_chosen (keep_if q xs) x) ≡ not (q x)) xs
  chosen_ready q xs objects =
      All-map (λ x f. one x f.0 f.1) xs
        (All-both (λ x. All (λ b. same_object x b ≡ true → x ≡ b) xs)
          (λ x. q x ≡ true → any_of (λ r. q r && same_object r x) xs ≡ true) xs objects
          (any_of_self (λ r x. q r && same_object r x) (λ x. q x ≡ true)
            (λ x h. rw h (ground arith)) xs))
    where
      one :
          (x : PlanEntry E)
          → All (λ b. same_object x b ≡ true → x ≡ b) xs
          → (q x ≡ true → any_of (λ r. q r && same_object r x) xs ≡ true)
          → not (is_chosen (keep_if q xs) x) ≡ not (q x)
      one x own self = elim (Bool-cases (q x)) [
        | inl yes' ↦ rw (yes', any_of-keep_if (λ r. same_object r x) q xs, self yes') refl
        | inr idle ↦
            rw
              (
                idle,
                any_of-keep_if (λ r. same_object r x) q xs,
                All-false→any_of (λ r. q r && same_object r x) xs
                    (All-map
                      (λ r f. elim (Bool-cases (same_object r x)) [
                        | inl same ↦
                            let e : x ≡ r = f (ground arith) in
                            let idle' : q r ≡ false = ap q (sym e) ∙ idle in rw idle' refl
                        | inr differ ↦ rw differ (ground arith)
                      ])
                      xs own),
              )
              refl
      ]
