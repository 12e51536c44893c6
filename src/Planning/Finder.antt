-- ===== src/Planning/Finder.antt =====
-- core/graph/planning/finder.py: the path finder and its cache of resolved paths. The resolver of
-- targets is given; it may raise.
use pyverge.Prelude.{Option, none, some, List, [], ◌∷◌, map}
use pyverge.Prelude.Text.{Text}
use pyverge.Prelude.Dict.{Dict, get, set_item}
use pyverge.Prelude.Linear.{Linear}
use pyverge.Errors.{Outcome, ok, err, attribute_error, ◌>>=◌}
use pyverge.Identity.{NodeId, NodeEntry, EdgeId, Descriptor, ModelRef}
use pyverge.Backend.{eq_pair}
use pyverge.Graph.{MigrationGraph, edge_path}
use pyverge.Planning.{Step}

pub record ExtractedEntry (V : Type 0) : Type 0 where
  pub path : List Step
  pub node : NodeEntry V

pub record ResolvedPath (V : Type 0) : Type 0 where
  pub steps : List (NodeId V × NodeId V)
  pub edges : List (EdgeId V)

-- `PathPlanEntry`
pub record FoundEntry (V : Type 0) : Type 0 where
  pub path : List Step
  pub source : NodeEntry V
  pub target : NodeEntry V
  pub target_model : ModelRef
  pub resolved : ResolvedPath V

abbrev pub Cache : Type 0 → Type 0
Cache V = Dict (NodeId V × NodeId V) (ResolvedPath V)

module _ {V : Type 0} where
  -- `target.descriptor.ref`; an entry that is known by its key only has no descriptor.
  abbrev ref_of : Option (Descriptor V) → Outcome ModelRef
  ref_of none = err attribute_error
  ref_of (some d) = ok d.ref

  abbrev pub found_entry : ExtractedEntry V → NodeEntry V → ResolvedPath V → Outcome (FoundEntry V)
  found_entry entry target resolved = ref_of target.descriptor >>= λ ref. ok (record {
    path = entry.path;
    source = entry.node;
    target = target;
    target_model = ref;
    resolved = resolved;
  })

  abbrev pub as_resolved : List (EdgeId V) → ResolvedPath V
  as_resolved path = record { steps = map (λ e. (e.source, e.target)) path; edges = path }

module _ {V : Type 0} ⦃o : Linear V⦄ (graph : MigrationGraph V) (discriminator : Text) where
  -- The path as the graph gives it.
  unfoldable pub walked : NodeId V → NodeId V → Outcome (ResolvedPath V)
  unfolding edge_path
  walked source target = do
    path ← edge_path graph source target discriminator
    ok (as_resolved path)

  -- A cache entry is made of a path that is found; a miss that raises leaves the cache.
  abbrev pub remember :
      NodeId V × NodeId V → Outcome (ResolvedPath V) → Cache V → Outcome (ResolvedPath V) × Cache V
  remember key (ok resolved) cache = (ok resolved, set_item key resolved cache)
  remember key (err f) cache = (err f, cache)

  unfoldable pub resolve_path : NodeId V → NodeId V → Cache V → Outcome (ResolvedPath V) × Cache V
  unfolding walked get
  resolve_path source target cache = elim (get (source, target) cache) [
    | none ↦ remember (source, target) (walked source target) cache
    | some resolved ↦ (ok resolved, cache)
  ]

  abbrev pub then_entry :
      ExtractedEntry V
      → NodeEntry V
      → Outcome (ResolvedPath V) × Cache V
      → Outcome (FoundEntry V) × Cache V
  then_entry entry target (ok resolved, cache) = (found_entry entry target resolved, cache)
  then_entry entry target (err f, cache) = (err f, cache)

  -- `_resolve`
  unfoldable pub resolve :
      ExtractedEntry V → NodeEntry V → Cache V → Outcome (FoundEntry V) × Cache V
  unfolding resolve_path
  resolve entry target cache = then_entry entry target (resolve_path entry.node.id target.id cache)

  module _ (target_resolver : NodeEntry V → Outcome (Option (NodeEntry V))) where
    abbrev pub then_rest :
        FoundEntry V
        → Outcome (List (FoundEntry V)) × Cache V
        → Outcome (List (FoundEntry V)) × Cache V
    then_rest found (ok rest, cache) = (ok (found ∷ rest), cache)
    then_rest found (err f, cache) = (err f, cache)

    abbrev pub go_on :
        Outcome (FoundEntry V) × Cache V
        → (Cache V → Outcome (List (FoundEntry V)) × Cache V)
        → Outcome (List (FoundEntry V)) × Cache V
    go_on (ok found, cache) rest = then_rest found (rest cache)
    go_on (err f, cache) rest = (err f, cache)

    -- `_plan`
    unfoldable pub plan :
        List (ExtractedEntry V) → Cache V → Outcome (List (FoundEntry V)) × Cache V
    unfolding resolve
    plan [] cache = (ok [], cache)
    plan (entry ∷ entries) cache = elim (target_resolver entry.node) [
      | err f ↦ (err f, cache)
      | ok target ↦ elim target [
        | none ↦ plan entries cache
        | some target ↦ go_on (resolve entry target cache) (λ cache. plan entries cache)
      ]
    ]
