-- ===== src/Prelude/Linear.antt =====
-- Linear orders as Python's rich comparisons compute them: `__lt__`, `__eq__` and `__gt__` of a
-- type are the three outcomes of one comparison.
use mathlib.Core.Path.{◌≡◌, refl, ap}
use mathlib.Core.Logic.{◌↔◌}
use mathlib.Core.Bool.{Bool, true, false}
use mathlib.Core.List.{[], ◌∷◌}
use native.Mathlib.Omega.{arith}
use Prim.Native.Nat.{ℕ, compare}
use pyverge.Prelude.Tests.{Ordering, Eq}
use pyverge.Prelude.Text.{Text}

abbrev pub swapped : Ordering → Ordering
swapped Ordering.lt = Ordering.gt
swapped Ordering.eq = Ordering.eq
swapped Ordering.gt = Ordering.lt

-- The first difference of two tuples decides.
abbrev pub lex : Ordering → Ordering → Ordering
lex Ordering.lt d = Ordering.lt
lex Ordering.eq d = d
lex Ordering.gt d = Ordering.gt

pub record Linear {κ} (K : Type κ) : Type κ where
  pub cmp : K → K → Ordering
  pub cmp_eq : (a b : K) → (cmp a b ≡ Ordering.eq) ↔ (a ≡ b)
  pub cmp_swap : (a b : K) → cmp b a ≡ swapped (cmp a b)
  pub cmp_trans :
      (a b c : K) → cmp a b ≡ Ordering.lt → cmp b c ≡ Ordering.lt → cmp a c ≡ Ordering.lt

abbrev pub is_lt : Ordering → Bool
is_lt Ordering.lt = true
is_lt Ordering.eq = false
is_lt Ordering.gt = false

abbrev pub is_eq : Ordering → Bool
is_eq Ordering.lt = false
is_eq Ordering.eq = true
is_eq Ordering.gt = false

module _ {κ} {K : Type κ} ⦃o : Linear K⦄ where
  abbrev pub lt : K → K → Bool
  lt a b = is_lt (o.cmp a b)

  abbrev pub eq : K → K → Bool
  eq a b = is_eq (o.cmp a b)

  pub eq_iff : (a b : K) → (eq a b ≡ true) ↔ (a ≡ b)
  eq_iff a b =
      (λ h. (o.cmp_eq a b).0 (ground arith), λ h. let e = (o.cmp_eq a b).1 h in ground arith)

  pub cmp_refl : (a : K) → o.cmp a a ≡ Ordering.eq
  cmp_refl a = (o.cmp_eq a a).1 refl

-- Equality tests through the comparison.
abbrev pub eq_of_linear {κ} : {K : Type κ} → Linear K → Eq K
eq_of_linear o = record { same = λ a b. eq ⦃o = o⦄ a b; same_iff = λ a b. eq_iff ⦃o = o⦄ a b }

-- `str`: by code points.
abbrev pub cmp_text : Text → Text → Ordering
cmp_text [] [] = Ordering.eq
cmp_text [] (d ∷ t) = Ordering.lt
cmp_text (c ∷ s) [] = Ordering.gt
cmp_text (c ∷ s) (d ∷ t) = lex (compare c d) (cmp_text s t)

pub cmp_text-eq : (s t : Text) → (cmp_text s t ≡ Ordering.eq) ↔ (s ≡ t)
cmp_text-eq [] [] = ground arith
cmp_text-eq [] (d ∷ t) = ground arith
cmp_text-eq (c ∷ s) [] = ground arith
cmp_text-eq (c ∷ s) (d ∷ t) = ground (arith, cmp_text-eq s t)

pub cmp_text_swap : (s t : Text) → cmp_text t s ≡ swapped (cmp_text s t)
cmp_text_swap [] [] = refl
cmp_text_swap [] (d ∷ t) = refl
cmp_text_swap (c ∷ s) [] = refl
cmp_text_swap (c ∷ s) (d ∷ t) = ground (arith, cmp_text_swap s t)

pub cmp_text_trans :
    (s t u : Text)
    → cmp_text s t ≡ Ordering.lt
    → cmp_text t u ≡ Ordering.lt
    → cmp_text s u ≡ Ordering.lt
cmp_text_trans [] [] u h k = cc
cmp_text_trans (c ∷ s) [] u h k = cc
cmp_text_trans [] (d ∷ t) [] h k = cc
cmp_text_trans [] (d ∷ t) (e ∷ u) h k = refl
cmp_text_trans (c ∷ s) (d ∷ t) [] h k = cc
cmp_text_trans (c ∷ s) (d ∷ t) (e ∷ u) h k = ground (arith, cmp_text_trans s t u)

instance abbrev pub linear_text : Linear Text
linear_text = record {
  cmp = cmp_text;
  cmp_eq = cmp_text-eq;
  cmp_swap = cmp_text_swap;
  cmp_trans = cmp_text_trans;
}

pub cmp_nat_eq : (a b : ℕ) → (compare a b ≡ Ordering.eq) ↔ (a ≡ b)
cmp_nat_eq a b = ground arith

pub cmp_nat_swap : (a b : ℕ) → compare b a ≡ swapped (compare a b)
cmp_nat_swap a b = ground arith

pub cmp_nat_trans :
    (a b c : ℕ) → compare a b ≡ Ordering.lt → compare b c ≡ Ordering.lt → compare a c ≡ Ordering.lt
cmp_nat_trans a b c h k = ground arith

instance abbrev pub linear_nat : Linear ℕ
linear_nat = record {
  cmp = compare;
  cmp_eq = cmp_nat_eq;
  cmp_swap = cmp_nat_swap;
  cmp_trans = cmp_nat_trans;
}

-- Tuples.
module _ {κ μ} {A : Type κ} {B : Type μ} (o : Linear A) (p : Linear B) where
  abbrev pub cmp_pair : A × B → A × B → Ordering
  cmp_pair x y = lex (o.cmp x.0 y.0) (p.cmp x.1 y.1)

  pub cmp_pair-eq : (x y : A × B) → (cmp_pair x y ≡ Ordering.eq) ↔ (x ≡ y)
  cmp_pair-eq (a, b) (c, d) = (
    λ h.
        let e : a ≡ c = (o.cmp_eq a c).0 (ground arith) in
        let f : b ≡ d = (p.cmp_eq b d).0 (ground arith) in λ i. (e i, f i),
    λ h.
        let e = (o.cmp_eq a c).1 (ap (λ (t : A × B). t.0) h) in
        let f = (p.cmp_eq b d).1 (ap (λ (t : A × B). t.1) h) in ground arith,
  )

  pub cmp_pair_swap : (x y : A × B) → cmp_pair y x ≡ swapped (cmp_pair x y)
  cmp_pair_swap (a, b) (c, d) = ground (arith, o.cmp_swap a c, p.cmp_swap b d)

  pub cmp_pair_trans :
      (x y z : A × B)
      → cmp_pair x y ≡ Ordering.lt
      → cmp_pair y z ≡ Ordering.lt
      → cmp_pair x z ≡ Ordering.lt
  cmp_pair_trans (a, b) (c, d) (u, v) h k =
      ground (arith, o.cmp_trans a c u, p.cmp_trans b d v, o.cmp_eq a c, o.cmp_eq c u, o.cmp_eq a u)

  abbrev pub linear_pair : Linear (A × B)
  linear_pair = record {
    cmp = cmp_pair;
    cmp_eq = cmp_pair-eq;
    cmp_swap = cmp_pair_swap;
    cmp_trans = cmp_pair_trans;
  }

-- A type that is compared by an identity of its values.
module _ {κ μ} {A : Type κ} {B : Type μ} (o : Linear B) (f : A → B)
    (faithful : (a b : A) → f a ≡ f b → a ≡ b) where
  pub cmp_by_eq : (a b : A) → (o.cmp (f a) (f b) ≡ Ordering.eq) ↔ (a ≡ b)
  cmp_by_eq a b =
      (λ h. faithful a b ((o.cmp_eq (f a) (f b)).0 h), λ h. (o.cmp_eq (f a) (f b)).1 (ap f h))

  abbrev pub linear_by : Linear A
  linear_by = record {
    cmp = λ a b. o.cmp (f a) (f b);
    cmp_eq = cmp_by_eq;
    cmp_swap = λ a b. o.cmp_swap (f a) (f b);
    cmp_trans = λ a b c. o.cmp_trans (f a) (f b) (f c);
  }
