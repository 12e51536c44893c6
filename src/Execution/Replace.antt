-- ===== src/Execution/Replace.antt =====
-- `_replace_at` changes one place of a payload and nothing beside it.
use pyverge.Prelude.{◌≡◌, refl, ap, false, [], ◌∷◌}
use pyverge.Errors.{ok}
use pyverge.Planning.{Step, key, index, step_eq}
use pyverge.Payload.{Value, null, boolean, integer, text, list, dict, subscript}
use pyverge.Payload.Places.{
  step_eq_refl, item_at-put_item, item_at-put_item_ne, field_at-put_field, put_item_comm,
  put_item_twice, put_field_comm, put_field_twice,
}
use pyverge.Execution.{child_of, put_child}

pub subscript_of_child :
    (v : Value) (s : Step) {x : Value} → child_of v s ≡ ok x → subscript v s ≡ ok x
unfolding child_of subscript
subscript_of_child (list vs) (index i) h = h
subscript_of_child (list vs) (key k) h = cc
subscript_of_child (dict fs) (key k) h = h
subscript_of_child (dict fs) (index i) h = cc
subscript_of_child (text []) (key k) h = cc
subscript_of_child (text (c ∷ cs)) (key k) h = cc
subscript_of_child (text []) (index i) h = cc
subscript_of_child (text (c ∷ cs)) (index i) h = cc
subscript_of_child null s h = cc
subscript_of_child (boolean b) s h = cc
subscript_of_child (integer n) s h = cc

module _ (w : Value) where
  pub child_of-put_child :
      (v : Value) (s : Step) {x : Value} → child_of v s ≡ ok x → child_of (put_child v s w) s ≡ ok w
  unfolding child_of put_child
  child_of-put_child (list vs) (index i) h = item_at-put_item w vs i h
  child_of-put_child (list vs) (key k) h = cc
  child_of-put_child (dict fs) (key k) h =
      rw (field_at-put_field fs (key k) (key k) w, step_eq_refl (key k)) refl
  child_of-put_child (dict fs) (index i) h = cc
  child_of-put_child (text []) (key k) h = cc
  child_of-put_child (text (c ∷ cs)) (key k) h = cc
  child_of-put_child (text []) (index i) h = cc
  child_of-put_child (text (c ∷ cs)) (index i) h = cc
  child_of-put_child null s h = cc
  child_of-put_child (boolean b) s h = cc
  child_of-put_child (integer n) s h = cc

  pub child_of-put_child_ne :
      (v : Value) (s t : Step) → step_eq s t ≡ false → child_of (put_child v s w) t ≡ child_of v t
  unfolding child_of put_child
  child_of-put_child_ne (list vs) (index i) (index j) h = item_at-put_item_ne w vs i j h
  child_of-put_child_ne (list vs) (index i) (key k) h = refl
  child_of-put_child_ne (list vs) (key k) t h = refl
  child_of-put_child_ne (dict fs) s (key k) h = rw (field_at-put_field fs s (key k) w, h) refl
  child_of-put_child_ne (dict fs) s (index j) h = refl
  child_of-put_child_ne (text t) s u h = refl
  child_of-put_child_ne null s t h = refl
  child_of-put_child_ne (boolean b) s t h = refl
  child_of-put_child_ne (integer n) s t h = refl

  pub subscript-put_child_ne :
      (v : Value) (s t : Step) → step_eq s t ≡ false → subscript (put_child v s w) t ≡ subscript v t
  unfolding subscript put_child
  subscript-put_child_ne (list vs) (index i) (index j) h = item_at-put_item_ne w vs i j h
  subscript-put_child_ne (list vs) (index i) (key k) h = refl
  subscript-put_child_ne (list vs) (key k) t h = refl
  subscript-put_child_ne (dict fs) s t h = rw (field_at-put_field fs s t w, h) refl
  subscript-put_child_ne (text t) s u h = refl
  subscript-put_child_ne null s t h = refl
  subscript-put_child_ne (boolean b) s t h = refl
  subscript-put_child_ne (integer n) s t h = refl

pub put_child_twice :
    (v : Value) (s : Step) (a b : Value) → put_child (put_child v s a) s b ≡ put_child v s b
unfolding put_child
put_child_twice (list vs) (index i) a b = ap list (put_item_twice vs i a b)
put_child_twice (list vs) (key k) a b = refl
put_child_twice (dict fs) s a b = ap dict (put_field_twice fs s a b)
put_child_twice (text t) s a b = refl
put_child_twice null s a b = refl
put_child_twice (boolean c) s a b = refl
put_child_twice (integer n) s a b = refl

pub put_child_comm :
    (v : Value) (s t : Step) (a b : Value) {x y : Value}
    → step_eq s t ≡ false
    → child_of v s ≡ ok x
    → child_of v t ≡ ok y
    → put_child (put_child v s a) t b ≡ put_child (put_child v t b) s a
unfolding put_child child_of
put_child_comm (list vs) (index i) (index j) a b h hs ht = ap list (put_item_comm a b vs i j h)
put_child_comm (list vs) (index i) (key k) a b h hs ht = refl
put_child_comm (list vs) (key k) (index i) a b h hs ht = refl
put_child_comm (list vs) (key k) (key l) a b h hs ht = refl
put_child_comm (dict fs) (key k) (key l) a b h hs ht =
    ap dict (put_field_comm a b fs (key k) (key l) h hs ht)
put_child_comm (dict fs) (index i) t a b h hs ht = cc
put_child_comm (dict fs) (key k) (index i) a b h hs ht = cc
put_child_comm (text t) s u a b h hs ht = refl
put_child_comm null s t a b h hs ht = refl
put_child_comm (boolean c) s t a b h hs ht = refl
put_child_comm (integer n) s t a b h hs ht = refl
