-- ===== src/Payload.antt =====
-- The payload of a run as a tree of JSON values, and core/graph/planning/path.py: `Path.get` and
-- `Path.set`. Python's item access is written out for every kind of value. A dictionary may get
-- an index as a key, so its keys are steps. Floats, and negative list indexes, are left out: the
-- steps of a path come from enumerating the payload. Values do not share parts.
pub mod Places
use pyverge.Prelude.{ℕ, zero, suc, Bool, true, false, List, [], ◌∷◌, if◌then◌else◌}
use pyverge.Prelude.Text.{Text}
use pyverge.Prelude.Int.{ℤ}
use pyverge.Errors.{Outcome, ok, err, type_error, key_error, index_error, value_error, ◌>>=◌}
use pyverge.Planning.{Step, key, index, step_eq}

mutual
  pub data Value : Type 0 where
    null : Value
    boolean : Bool → Value
    integer : ℤ → Value
    text : Text → Value
    list : Items → Value
    dict : Fields → Value

  pub data Items : Type 0 where
    nil : Items
    cons : Value → Items → Items

  pub data Fields : Type 0 where
    end : Fields
    field : Step → Value → Fields → Fields

-- `vs[i]`
unfoldable pub item_at : Items → ℕ → Outcome Value
item_at nil i = err index_error
item_at (cons v vs) zero = ok v
item_at (cons v vs) (suc i) = item_at vs i

-- `fs[k]`
unfoldable pub field_at : Fields → Step → Outcome Value
field_at end k = err key_error
field_at (field j v fs) k = if step_eq j k then ok v else field_at fs k

-- `s[i]` of a text
unfoldable pub char_at : Text → ℕ → Outcome Value
char_at [] i = err index_error
char_at (c ∷ cs) zero = ok (text (c ∷ []))
char_at (c ∷ cs) (suc i) = char_at cs i

-- `vs[i] = w`, at an index in range.
unfoldable pub put_item : Items → ℕ → Value → Items
put_item nil i w = nil
put_item (cons v vs) zero w = cons w vs
put_item (cons v vs) (suc i) w = cons v (put_item vs i w)

-- `fs[k] = w`: an old key keeps its place.
unfoldable pub put_field : Fields → Step → Value → Fields
put_field end k w = field k w end
put_field (field j v fs) k w = if step_eq j k then field j w fs else field j v (put_field fs k w)

-- `current[step]`
unfoldable pub subscript : Value → Step → Outcome Value
unfolding item_at field_at char_at
subscript (list vs) (index i) = item_at vs i
subscript (list vs) (key k) = err type_error
subscript (dict fs) s = field_at fs s
subscript (text t) (index i) = char_at t i
subscript (text t) (key k) = err type_error
subscript v s = err type_error

-- `current[step] = value`
unfoldable pub assign : Value → Step → Value → Outcome Value
unfolding item_at put_item put_field
assign (list vs) (index i) w = do old ← item_at vs i; ok (list (put_item vs i w))
assign (list vs) (key k) w = err type_error
assign (dict fs) s w = ok (dict (put_field fs s w))
assign v s w = err type_error

-- `Path.get`
unfoldable pub get : List Step → Value → Outcome Value
unfolding subscript
get [] data' = ok data'
get (s ∷ path) data' = do current ← subscript data' s; get path current

-- `data.clear(); data.update(value)`, for a mapping `value`; the sequences of pairs that `update`
-- takes too are refused.
abbrev pub update_root : Value → Value → Outcome Value
update_root (dict fs) (dict gs) = ok (dict gs)
update_root data' value = err type_error

-- `Path.set`: the object at the path's parent is changed in place, so each object above it holds
-- what becomes of it.
unfoldable pub set : List Step → Value → Value → Outcome Value
unfolding subscript assign
set [] data' value = update_root data' value
set (s ∷ []) data' value = assign data' s value
set (s ∷ t ∷ path) data' value = do
  current ← subscript data' s
  changed ← set (t ∷ path) current value
  assign data' s changed
