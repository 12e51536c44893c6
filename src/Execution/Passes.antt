-- ===== src/Execution/Passes.antt =====
-- Which paths still lead to a value once a result has been applied.
use pyverge.Prelude.{
  ◌≤◌, ◌≡◌, refl, ◌⊎◌, ◌↔◌, inl, inr, Bool, true, false, ◌&&◌, List, [], ◌∷◌, length, if◌then◌else◌,
  Bool-cases, arith, ltb,
}
use pyverge.Errors.{ok, bind_inv, ok_inj}
use pyverge.Planning.{Step, step_eq, starts_with, is_descendant_of}
use pyverge.Payload.{Value}
use pyverge.Payload.Places.{step_eq_iff, step_eq_refl, diverge}
use pyverge.Execution.{child_of, replace_at}
use pyverge.Execution.Replace.{child_of-put_child}
use pyverge.Execution.Results.{find, IsPlace, IsPlace-replace_at}

-- A place above a changed one is still a place.
IsPlace-above :
    (a : Value) (p q : List Step) (v : Value) {u : Value}
    → starts_with p q ≡ true
    → replace_at v p a ≡ ok u
    → IsPlace u q
unfolding find replace_at
IsPlace-above a p [] v {u} s h = (u, refl)
IsPlace-above a [] (t ∷ q) v s h = cc
IsPlace-above a (x ∷ p) (t ∷ q) v s h =
    let (child, at, rest) = bind_inv (child_of v x) _ h in
    let (changed, done, same) = bind_inv (replace_at child p a) _ rest in
    elim (Bool-cases (step_eq x t)) [
      | inl e ↦
          let st = (step_eq_iff x t).0 e in
          let (y, found) = IsPlace-above a p q child (rw e at s) done in
          (y, rw (← ok_inj same, ← st, child_of-put_child changed v x at) found)
      | inr n ↦ absurd (cc (rw n at s))
    ]

-- The second path is not below the first, and not the same.
abbrev pub Passes : List Step → List Step → Type 0
Passes p q = (diverge p q ≡ true) ⊎ (starts_with p q ≡ true)

pub IsPlace-Passes :
    (a : Value) (p q : List Step) (v u : Value)
    → Passes p q
    → replace_at v p a ≡ ok u
    → IsPlace v q
    → IsPlace u q
IsPlace-Passes a p q v u (inl d) h i = IsPlace-replace_at a p q v d h i
IsPlace-Passes a p q v u (inr s) h i = IsPlace-above a p q v s h

abbrev pub path_eq : List Step → List Step → Bool
path_eq [] [] = true
path_eq [] (t ∷ q) = false
path_eq (s ∷ p) [] = false
path_eq (s ∷ p) (t ∷ q) = if step_eq s t then path_eq p q else false

pub path_eq_refl : (p : List Step) → path_eq p p ≡ true
path_eq_refl [] = refl
path_eq_refl (s ∷ p) = rw (step_eq_refl s) (path_eq_refl p)

pub path_eq_iff : (p q : List Step) → (path_eq p q ≡ true) ↔ (p ≡ q)
path_eq_iff [] [] = ground arith
path_eq_iff [] (t ∷ q) = ground arith
path_eq_iff (s ∷ p) [] = ground arith
path_eq_iff (s ∷ p) (t ∷ q) = ground (arith, step_eq_iff s t, path_eq_iff p q)

starts_with-le : (p q : List Step) → starts_with p q ≡ true → length q ≤ length p
starts_with-le p [] h = omega arith
starts_with-le [] (t ∷ q) h = cc
starts_with-le (s ∷ p) (t ∷ q) h = ground (arith, starts_with-le p q)

-- Of two different paths of which the second is not below the first, the first passes the second.
passes_lem :
    (p q : List Step)
    → path_eq q p ≡ false
    → (ltb (length p) (length q) && starts_with q p) ≡ false
    → Passes p q
passes_lem [] [] e d = cc
passes_lem [] (t ∷ q) e d = ground arith
passes_lem (s ∷ p) [] e d = inr refl
passes_lem (s ∷ p) (t ∷ q) e d = elim (Bool-cases (step_eq s t)) [
  | inl same ↦
      let st : step_eq t s ≡ true = rw ((step_eq_iff s t).0 same) (step_eq_refl t) in
      rw same (passes_lem p q (rw st at e) (ground (arith, st)))
  | inr differ ↦ rw differ (inl refl)
]

pub Passes-of : (p q : List Step) → path_eq q p ≡ false → is_descendant_of q p ≡ false → Passes p q
unfolding is_descendant_of
Passes-of p q e d = passes_lem p q e d

-- If neither is below the other, they diverge.
pub diverge-of :
    (p q : List Step)
    → path_eq q p ≡ false
    → is_descendant_of q p ≡ false
    → is_descendant_of p q ≡ false
    → diverge p q ≡ true
unfolding is_descendant_of
diverge-of [] [] e d c = cc
diverge-of [] (t ∷ q) e d c = ground arith
diverge-of (s ∷ p) [] e d c = ground arith
diverge-of (s ∷ p) (t ∷ q) e d c = elim (Bool-cases (step_eq s t)) [
  | inl same ↦
      let st : step_eq t s ≡ true = rw ((step_eq_iff s t).0 same) (step_eq_refl t) in
      rw same (diverge-of p q (rw st at e) (ground (arith, st)) (ground (arith, same)))
  | inr differ ↦ rw differ refl
]
