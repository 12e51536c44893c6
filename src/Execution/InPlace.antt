-- ===== src/Execution/InPlace.antt =====
-- `Path.set`, which `_validate_target` uses, against `_replace_at`, which `apply_results` uses.
use pyverge.Prelude.{◌≡◌, refl, ◌∙◌, List, [], ◌∷◌}
use pyverge.Errors
use pyverge.Errors.{bind_inv, ok_inj}
use pyverge.Planning.{Step, key, index}
use pyverge.Payload.{
  Value, null, boolean, integer, text, list, dict, field_at, put_field, subscript, assign,
}
use pyverge.Payload
use pyverge.Execution.{child_of, put_child, replace_at}
use pyverge.Execution.Replace.{subscript_of_child}

assign_of_child :
    (v : Value) (s : Step) (w : Value) {x : Value}
    → child_of v s ≡ Errors.ok x
    → assign v s w ≡ Errors.ok (put_child v s w)
unfolding child_of put_child assign
assign_of_child (list vs) (index i) w {x} h = rw h refl
assign_of_child (list vs) (key k) w h = cc
assign_of_child (dict fs) (key k) w h = refl
assign_of_child (dict fs) (index i) w h = cc
assign_of_child (text []) (key k) w h = cc
assign_of_child (text (c ∷ cs)) (key k) w h = cc
assign_of_child (text []) (index i) w h = cc
assign_of_child (text (c ∷ cs)) (index i) w h = cc
assign_of_child null s w h = cc
assign_of_child (boolean b) s w h = cc
assign_of_child (integer n) s w h = cc

-- Wherever the copying `_replace_at` succeeds, at a path that is not empty, the assignment of
-- `Path.set` in place succeeds too and makes of the payload what the copy is.
pub set-replace_at :
    (s : Step) (path : List Step) (v r : Value) {u : Value}
    → replace_at v (s ∷ path) r ≡ Errors.ok u
    → Payload.set (s ∷ path) v r ≡ Errors.ok u
unfolding replace_at Payload.set
set-replace_at s [] v r h =
    let (child, at, rest) = bind_inv (child_of v s) _ h in assign_of_child v s r at ∙ rest
set-replace_at s (t ∷ path) v r h =
    let (child, at, rest) = bind_inv (child_of v s) _ h in
    let (changed, done, same) = bind_inv (replace_at child (t ∷ path) r) _ rest in
    rw (subscript_of_child v s at, set-replace_at t path child r done)
      (assign_of_child v s changed at ∙ same)
