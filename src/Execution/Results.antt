-- ===== src/Execution/Results.antt =====
-- `_replace_at` puts a value at its path and leaves the paths that diverge from it alone.
use pyverge.Prelude.{◌≡◌, refl, sym, ◌∙◌, true, List, [], ◌∷◌, inl, inr, Bool-cases}
use pyverge.Errors.{Outcome, ok, ◌>>=◌, bind_inv, ok_inj}
use pyverge.Planning.{Step, step_eq}
use pyverge.Payload.{Value, subscript}
use pyverge.Payload
use pyverge.Payload.Places.{step_eq_iff, diverge}
use pyverge.Execution.{child_of, put_child, replace_at}
use pyverge.Execution.Replace.{
  subscript_of_child, child_of-put_child, child_of-put_child_ne, subscript-put_child_ne,
}

-- The value at a path of keys into dictionaries and indexes into lists.
unfoldable pub find : List Step → Value → Outcome Value
find [] v = ok v
find (s ∷ path) v = do child ← child_of v s; find path child

-- The path leads to a value.
abbrev pub IsPlace : Value → List Step → Type 0
IsPlace v path = (x : Value) × (find path v ≡ ok x)

pub get-replace_at :
    (path : List Step) (v r : Value) {u : Value}
    → replace_at v path r ≡ ok u
    → Payload.get path u ≡ ok r
unfolding replace_at Payload.get
get-replace_at [] v r h = sym h
get-replace_at (s ∷ path) v r h =
    let (child, at, rest) = bind_inv (child_of v s) _ h in
    let (changed, done, same) = bind_inv (replace_at child path r) _ rest in
    let e = subscript_of_child _ s (child_of-put_child changed v s at) in
    rw (← ok_inj same, e) (get-replace_at path child r done)

module _ (r : Value) where
  -- Beside the path nothing changes.
  find-replace_at_ne :
      (p q : List Step) (v : Value) {u : Value}
      → diverge p q ≡ true
      → replace_at v p r ≡ ok u
      → find q u ≡ find q v
  unfolding replace_at find
  find-replace_at_ne [] q v a h = cc
  find-replace_at_ne (s ∷ p) [] v a h = cc
  find-replace_at_ne (s ∷ p) (t ∷ q) v {u} a h =
      let (child, at, rest) = bind_inv (child_of v s) _ h in
      let (changed, done, same) = bind_inv (replace_at child p r) _ rest in
      elim (Bool-cases (step_eq s t)) [
        | inl e ↦
            let st = (step_eq_iff s t).0 e in
            rw (← ok_inj same, ← st, child_of-put_child changed v s at, at)
              (find-replace_at_ne p q child (rw e at a) done)
        | inr n ↦ rw (← ok_inj same, child_of-put_child_ne changed v s t n) refl
      ]

  pub get-replace_at_ne :
      (p q : List Step) (v : Value) {u : Value}
      → diverge p q ≡ true
      → replace_at v p r ≡ ok u
      → Payload.get q u ≡ Payload.get q v
  unfolding replace_at Payload.get
  get-replace_at_ne [] q v a h = cc
  get-replace_at_ne (s ∷ p) [] v a h = cc
  get-replace_at_ne (s ∷ p) (t ∷ q) v {u} a h =
      let (child, at, rest) = bind_inv (child_of v s) _ h in
      let (changed, done, same) = bind_inv (replace_at child p r) _ rest in
      elim (Bool-cases (step_eq s t)) [
        | inl e ↦
            let st = (step_eq_iff s t).0 e in
            rw
              (
                ← ok_inj same,
                ← st,
                subscript_of_child _ s (child_of-put_child changed v s at),
                subscript_of_child _ s at,
              )
              (get-replace_at_ne p q child (rw e at a) done)
        | inr n ↦ rw (← ok_inj same, subscript-put_child_ne changed v s t n) refl
      ]

  pub replace_at_total :
      (p : List Step) (v : Value) → IsPlace v p → (u : Value) × (replace_at v p r ≡ ok u)
  unfolding replace_at find
  replace_at_total [] v h = (r, refl)
  replace_at_total (s ∷ p) v (x, h) =
      let (child, at, rest) = bind_inv (child_of v s) _ h in
      let (changed, done) = replace_at_total p child (x, rest) in
      (put_child v s changed, rw (at, done) refl)

  pub IsPlace-replace_at :
      (p q : List Step) (v : Value) {u : Value}
      → diverge p q ≡ true
      → replace_at v p r ≡ ok u
      → IsPlace v q
      → IsPlace u q
  IsPlace-replace_at p q v a h (x, e) = (x, find-replace_at_ne p q v a h ∙ e)
