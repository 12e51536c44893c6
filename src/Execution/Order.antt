-- ===== src/Execution/Order.antt =====
-- Two calls of `_replace_at` at places apart can be made in either order.
use pyverge.Prelude.{◌≡◌, refl, sym, ap, ◌∙◌, true, List, [], ◌∷◌, inl, inr, Bool-cases}
use pyverge.Errors.{ok, bind_inv, ok_inj}
use pyverge.Planning.{Step, step_eq}
use pyverge.Payload.{Value}
use pyverge.Payload.Places.{step_eq_iff, step_eq_swap, diverge}
use pyverge.Execution.{child_of, put_child, replace_at}
use pyverge.Execution.Replace.{
  child_of-put_child, child_of-put_child_ne, put_child_twice, put_child_comm,
}
use pyverge.Execution.Results.{find, IsPlace, replace_at_total}

-- Two changes at places apart can be made in either order, with one outcome.
pub record Diamond (v : Value) (p q : List Step) (a b : Value) : Type 0 where
  pub left : Value
  pub right : Value
  pub both : Value
  pub first : replace_at v p a ≡ ok left
  pub then_second : replace_at left q b ≡ ok both
  pub second : replace_at v q b ≡ ok right
  pub then_first : replace_at right p a ≡ ok both

replace_at_step :
    (v : Value) (s : Step) (p : List Step) (a : Value) {child changed : Value}
    → child_of v s ≡ ok child
    → replace_at child p a ≡ ok changed
    → replace_at v (s ∷ p) a ≡ ok (put_child v s changed)
unfolding replace_at
replace_at_step v s p a h k = rw (h, k) refl

pub replace_at-Diamond :
    (p q : List Step) (v a b : Value)
    → diverge p q ≡ true
    → IsPlace v p
    → IsPlace v q
    → Diamond v p q a b
unfolding find
replace_at-Diamond [] q v a b h hp hq = cc
replace_at-Diamond (s ∷ p) [] v a b h hp hq = cc
replace_at-Diamond (s ∷ p) (t ∷ q) v a b h (x, hp) (y, hq) =
    let (l, at_s, inside_s) = bind_inv (child_of v s) _ hp in
    let (m, at_t, inside_t) = bind_inv (child_of v t) _ hq in
    elim (Bool-cases (step_eq s t)) [
      | inl e ↦
          let st : t ≡ s = sym ((step_eq_iff s t).0 e) in
          let lm : m ≡ l = ok_inj (sym at_t ∙ ap (child_of v) st ∙ at_s) in
          let ih =
            replace_at-Diamond p q l a b (rw e at h) (x, inside_s)
              (y, ap (find q) (sym lm) ∙ inside_t) in
          let one_side =
            λ (w w' : Value) (r : List Step) (c : Value) (k : replace_at w r c ≡ ok w').
              replace_at_step (put_child v s w) s r c (child_of-put_child w v s at_s) k
              ∙ ap ok (put_child_twice v s w w') in
          record {
            left = put_child v s ih.left;
            right = put_child v s ih.right;
            both = put_child v s ih.both;
            first = replace_at_step v s p a at_s ih.first;
            then_second = rw st (one_side ih.left ih.both q b ih.then_second);
            second = rw st (replace_at_step v s q b at_s ih.second);
            then_first = one_side ih.right ih.both p a ih.then_first;
          }
      | inr n ↦
          let (l', done_s) = replace_at_total a p l (x, inside_s) in
          let (m', done_t) = replace_at_total b q m (y, inside_t) in
          record {
            left = put_child v s l';
            right = put_child v t m';
            both = put_child (put_child v s l') t m';
            first = replace_at_step v s p a at_s done_s;
            then_second = replace_at_step _ t q b (child_of-put_child_ne l' v s t n ∙ at_t) done_t;
            second = replace_at_step v t q b at_t done_t;
            then_first =
                replace_at_step _ s p a (child_of-put_child_ne m' v t s (step_eq_swap s t n) ∙ at_s)
                  done_s
                ∙ ap ok (sym (put_child_comm v s t l' m' n at_s at_t));
          }
    ]
