-- ===== src/PlanCache/Keys.antt =====
-- runtime/plan_cache.py: `target_key` and `PlanKey`. How Python writes texts, pairs and nodes out
-- (`repr` and `str`) is given.
use pyverge.Prelude.{
  ◌≡◌, refl, ap, ◌↔◌, Bool-cases, inl, inr, Bool, true, false, Option, none, some, List, [], ◌∷◌,
  ◌++◌, map, Eq, if◌then◌else◌, eq_nat, arith,
}
use pyverge.Prelude.Text.{Text, codes, eq_text}
use pyverge.Prelude.Linear.{linear_text, linear_pair}
use pyverge.Prelude.Sorted.{sorted}
use pyverge.Identity.{NodeEntry}
use pyverge.Planning.{Step, key, index, step_eq}
use pyverge.Planning.Finder.{ExtractedEntry}

mutual
  -- A target, by what `target_key` asks of it: a class, a dictionary, a list or tuple, a node, a
  -- callable, or another value; the last two with their `repr`.
  pub data Target : Type 0 where
    class_target : (module_name qualname : Text) → Target
    dict_target : Items → Target
    seq_target : Targets → Target
    node_target : (namespace kind version : Text) → Target
    callable_target : Text → Target
    other_target : Text → Target

  -- The items of a dictionary, each with the `str` of its key.
  pub data Items : Type 0 where
    no_items : Items
    item : Text → Target → Items → Items

  pub data Targets : Type 0 where
    no_targets : Targets
    next : Target → Targets → Targets

-- `repr` of a tuple of pairs of texts and of a tuple of texts, and `str` of a node.
pub record Formats (V : Type 0) : Type 0 where
  pub repr_pairs : List (Text × Text) → Text
  pub repr_texts : List Text → Text
  pub str_node : NodeEntry V → Text

abbrev pub is_callable : Target → Bool
is_callable (callable_target repr) = true
is_callable (class_target module_name qualname) = false
is_callable (dict_target items) = false
is_callable (seq_target values) = false
is_callable (node_target namespace kind version) = false
is_callable (other_target repr) = false

module _ {V : Type 0} (formats : Formats V) where
  -- `target_key(value) or repr(value)`: a key is never empty, and only a callable has none.
  unfoldable mutual
    pub key_or_repr : Target → Text
    key_or_repr (class_target module_name qualname) =
        codes "model:" ++ (module_name ++ (codes "." ++ qualname))
    key_or_repr (dict_target items) =
        codes "dict:"
        ++ formats.repr_pairs
            (sorted ⦃o = linear_pair linear_text linear_text⦄ (λ p. p) (item_keys items))
    key_or_repr (seq_target values) = codes "seq:" ++ formats.repr_texts (target_keys values)
    key_or_repr (node_target namespace kind version) =
        codes "node:" ++ (namespace ++ (codes ":" ++ (kind ++ (codes "@" ++ version))))
    key_or_repr (callable_target repr) = repr
    key_or_repr (other_target repr) = codes "repr:" ++ repr

    pub item_keys : Items → List (Text × Text)
    item_keys no_items = []
    item_keys (item name value items) = (name, key_or_repr value) ∷ item_keys items

    pub target_keys : Targets → List Text
    target_keys no_targets = []
    target_keys (next target rest) = key_or_repr target ∷ target_keys rest

  -- Callable resolvers are dynamic, and have no key.
  unfoldable pub target_key : Target → Option Text
  target_key target = if is_callable target then none else some (key_or_repr target)

  -- A class, by its module and its name within it.
  abbrev pub model_name : Text × Text → Text
  model_name model = model.0 ++ (codes "." ++ model.1)

pub record PlanKey : Type 0 where
  pub target : Text
  pub source_model : Option Text
  pub entries : List (List Step × Text)

module _ {V : Type 0} (formats : Formats V) where
  abbrev with_target : Option (Text × Text) → List (ExtractedEntry V) → Option Text → Option PlanKey
  with_target source_model entries none = none
  with_target source_model entries (some target) = some (record {
    target = target;
    source_model = elim source_model [ none ↦ none | some model ↦ some (model_name formats model) ];
    entries = map (λ e. (e.path, formats.str_node e.node)) entries;
  })

  -- `PlanKey.from_entries`
  unfoldable pub from_entries :
      Target → Option (Text × Text) → List (ExtractedEntry V) → Option PlanKey
  unfolding target_key
  from_entries target source_model entries =
      with_target source_model entries (target_key formats target)

-- `__eq__` of the dataclass, field by field.
module _ {A : Type 0} (e : Eq A) where
  abbrev pub eqs : List A → List A → Bool
  eqs [] [] = true
  eqs [] (y ∷ ys) = false
  eqs (x ∷ xs) [] = false
  eqs (x ∷ xs) (y ∷ ys) = if e.same x y then eqs xs ys else false

  pub eqs_iff : (xs ys : List A) → (eqs xs ys ≡ true) ↔ (xs ≡ ys)
  eqs_iff [] [] = ground arith
  eqs_iff [] (y ∷ ys) = ground arith
  eqs_iff (x ∷ xs) [] = ground arith
  eqs_iff (x ∷ xs) (y ∷ ys) = ground (arith, e.same_iff x y, eqs_iff xs ys)

  abbrev pub eq_list : Eq (List A)
  eq_list = record { same = eqs; same_iff = eqs_iff }

  abbrev pub eq_options : Option A → Option A → Bool
  eq_options none none = true
  eq_options none (some y) = false
  eq_options (some x) none = false
  eq_options (some x) (some y) = e.same x y

  pub eq_options_iff : (x y : Option A) → (eq_options x y ≡ true) ↔ (x ≡ y)
  eq_options_iff none none = ground arith
  eq_options_iff none (some y) = ground arith
  eq_options_iff (some x) none = ground arith
  eq_options_iff (some x) (some y) = ground (arith, e.same_iff x y)

  abbrev pub eq_option : Eq (Option A)
  eq_option = record { same = eq_options; same_iff = eq_options_iff }

pub step_eq_iff : (s t : Step) → (step_eq s t ≡ true) ↔ (s ≡ t)
step_eq_iff (key s) (key t) = ground (arith, eq_text.same_iff s t)
step_eq_iff (key s) (index i) = ground arith
step_eq_iff (index i) (key s) = ground arith
step_eq_iff (index i) (index j) = ground (arith, eq_nat.same_iff i j)

abbrev pub eq_step : Eq Step
eq_step = record { same = step_eq; same_iff = step_eq_iff }

module _ {A B : Type 0} (e : Eq A) (f : Eq B) where
  abbrev pub eqs_both : A × B → A × B → Bool
  eqs_both x y = if e.same x.0 y.0 then f.same x.1 y.1 else false

  pub eqs_both_iff : (x y : A × B) → (eqs_both x y ≡ true) ↔ (x ≡ y)
  eqs_both_iff x y = (forward, backward)
    where
      forward : eqs_both x y ≡ true → x ≡ y
      forward h = elim (Bool-cases (e.same x.0 y.0)) [
        | inl same ↦
            let first : x.0 ≡ y.0 = (e.same_iff x.0 y.0).0 same in
            let second : x.1 ≡ y.1 = (f.same_iff x.1 y.1).0 (rw same at h) in
            λ i. (first i, second i)
        | inr other ↦ absurd (let z : false ≡ true = rw other at h in cc)
      ]

      backward : x ≡ y → eqs_both x y ≡ true
      backward h =
          let first = (e.same_iff x.0 y.0).1 (ap (λ (z : A × B). z.0) h) in
          let second = (f.same_iff x.1 y.1).1 (ap (λ (z : A × B). z.1) h) in rw (first, second) refl

  abbrev pub eq_both : Eq (A × B)
  eq_both = record { same = eqs_both; same_iff = eqs_both_iff }

-- A key as the tuple of its fields.
abbrev pub fields_of : PlanKey → Text × (Option Text × List (List Step × Text))
fields_of k = (k.target, (k.source_model, k.entries))

abbrev pub eq_fields : Eq (Text × (Option Text × List (List Step × Text)))
eq_fields =
    eq_both eq_text (eq_both (eq_option eq_text) (eq_list (eq_both (eq_list eq_step) eq_text)))

pub plan_key_iff : (j k : PlanKey) → (eq_fields.same (fields_of j) (fields_of k) ≡ true) ↔ (j ≡ k)
plan_key_iff j k = (
  λ h.
      let same = (eq_fields.same_iff (fields_of j) (fields_of k)).0 h in
      λ i. record { target = (same i).0; source_model = (same i).1.0; entries = (same i).1.1 },
  λ e. (eq_fields.same_iff (fields_of j) (fields_of k)).1 (ap fields_of e),
)

instance abbrev pub eq_plan_key : Eq PlanKey
eq_plan_key = record {
  same = λ j k. eq_fields.same (fields_of j) (fields_of k);
  same_iff = plan_key_iff;
}
