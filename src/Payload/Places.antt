-- ===== src/Payload/Places.antt =====
-- The laws of items and fields: a place holds what was put there, and the other places keep theirs.
use pyverge.Prelude.{
  ℕ, zero, suc, ◌≡◌, refl, ap, Bool, true, false, List, [], ◌∷◌, if◌then◌else◌, nat_eq, nat_eq_iff,
  arith, ◌↔◌, inl, inr, Bool-cases,
}
use pyverge.Prelude.Text.{text_eq_iff}
use pyverge.Errors.{ok}
use pyverge.Planning.{Step, key, index, step_eq}
use pyverge.Payload.{
  Value, Items, nil, cons, Fields, end, field, item_at, field_at, put_item, put_field,
}

pub step_eq_iff : (s t : Step) → (step_eq s t ≡ true) ↔ (s ≡ t)
step_eq_iff (key s) (key t) = ground (arith, text_eq_iff s t)
step_eq_iff (key s) (index i) = ground arith
step_eq_iff (index i) (key s) = ground arith
step_eq_iff (index i) (index j) = ground (arith, nat_eq_iff i j)

pub step_eq_refl : (s : Step) → step_eq s s ≡ true
step_eq_refl s = (step_eq_iff s s).1 refl

pub step_eq_swap : (s t : Step) → step_eq s t ≡ false → step_eq t s ≡ false
step_eq_swap s t h = ground (arith, step_eq_iff s t, step_eq_iff t s)

-- Neither path leads through the other's end.
abbrev pub diverge : List Step → List Step → Bool
diverge [] q = false
diverge (s ∷ p) [] = false
diverge (s ∷ p) (t ∷ q) = if step_eq s t then diverge p q else true

pub diverge_swap : (p q : List Step) → diverge p q ≡ true → diverge q p ≡ true
diverge_swap [] q h = cc
diverge_swap (s ∷ p) [] h = cc
diverge_swap (s ∷ p) (t ∷ q) h = ground (arith, step_eq_iff s t, step_eq_iff t s, diverge_swap p q)

module _ (v : Value) where
  pub item_at-put_item :
      (vs : Items) (i : ℕ) {x : Value} → item_at vs i ≡ ok x → item_at (put_item vs i v) i ≡ ok v
  unfolding item_at put_item
  item_at-put_item nil i h = cc
  item_at-put_item (cons x vs) zero h = refl
  item_at-put_item (cons x vs) (suc i) h = item_at-put_item vs i h

  pub item_at-put_item_ne :
      (vs : Items) (i j : ℕ) → nat_eq i j ≡ false → item_at (put_item vs i v) j ≡ item_at vs j
  unfolding item_at put_item
  item_at-put_item_ne nil i j h = refl
  item_at-put_item_ne (cons x vs) zero zero h = cc
  item_at-put_item_ne (cons x vs) zero (suc j) h = refl
  item_at-put_item_ne (cons x vs) (suc i) zero h = refl
  item_at-put_item_ne (cons x vs) (suc i) (suc j) h = item_at-put_item_ne vs i j (ground arith)

pub field_at-put_field :
    (fs : Fields) (s t : Step) (v : Value)
    → field_at (put_field fs s v) t ≡ (if step_eq s t then ok v else field_at fs t)
unfolding field_at put_field
field_at-put_field end s t v = refl
field_at-put_field (field j x fs) s t v =
    ground (arith, step_eq_iff s t, step_eq_iff j s, step_eq_iff j t, field_at-put_field fs s t v)

-- What is put at two places does not depend on the order.
module _ (v w : Value) where
  pub put_item_comm :
      (vs : Items) (i j : ℕ)
      → nat_eq i j ≡ false
      → put_item (put_item vs i v) j w ≡ put_item (put_item vs j w) i v
  unfolding put_item
  put_item_comm nil i j h = refl
  put_item_comm (cons x vs) zero zero h = cc
  put_item_comm (cons x vs) zero (suc j) h = refl
  put_item_comm (cons x vs) (suc i) zero h = refl
  put_item_comm (cons x vs) (suc i) (suc j) h = ap (cons x) (put_item_comm vs i j (ground arith))

  pub put_field_comm :
      (fs : Fields) (s t : Step) {x y : Value}
      → step_eq s t ≡ false
      → field_at fs s ≡ ok x
      → field_at fs t ≡ ok y
      → put_field (put_field fs s v) t w ≡ put_field (put_field fs t w) s v
  unfolding put_field field_at
  put_field_comm end s t h a b = cc
  put_field_comm (field j z fs) s t {x} {y} h a b = ground (
    arith,
    step_eq_iff s t,
    step_eq_iff j s,
    step_eq_iff j t,
    λ (a' : field_at fs s ≡ ok x) (b' : field_at fs t ≡ ok y). put_field_comm fs s t h a' b',
  )

pub put_item_twice :
    (vs : Items) (i : ℕ) (v w : Value) → put_item (put_item vs i v) i w ≡ put_item vs i w
unfolding put_item
put_item_twice nil i v w = refl
put_item_twice (cons x vs) zero v w = refl
put_item_twice (cons x vs) (suc i) v w = ap (cons x) (put_item_twice vs i v w)

pub put_field_twice :
    (fs : Fields) (s : Step) (v w : Value) → put_field (put_field fs s v) s w ≡ put_field fs s w
unfolding put_field
put_field_twice end s v w = rw (step_eq_refl s) refl
put_field_twice (field j x fs) s v w = elim (Bool-cases (step_eq j s)) [
  | inl e ↦ rw (e, e) refl
  | inr n ↦ rw (n, n) (ap (field j x) (put_field_twice fs s v w))
]
