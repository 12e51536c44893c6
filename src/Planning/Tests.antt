-- ===== src/Planning/Tests.antt =====
-- Plans, for tests: three entries of one payload, one of them below another.
use pyverge.Prelude.{
  ℕ, ◌≡◌, ◌⊎◌, refl, Option, none, some, if◌then◌else◌, ◌==◌, eq_nat, Bool, true, false, List, [],
  ◌∷◌, keep_if, All, length,
}
use pyverge.Prelude.Int.{pos}
use pyverge.Prelude.Text.{Text, codes}
use pyverge.Prelude.Linear.{linear_nat, lt}
use pyverge.Errors.{Outcome, ok}
use pyverge.Prelude.Dict.{get, set_item}
use pyverge.Graph.{MigrationGraph, Revision, kind_versions, last_version}
use pyverge.Graph.Lookup.{latest}
use pyverge.Backend.{BuildOptions, build, nodes_for_kind}
use pyverge.Prelude.Sorted.{sorted, insort_left, bisect_left}
use pyverge.Prelude.Groups.{bucket, append_to, group_by}
use pyverge.Graph.Extremes.{built, IsRegistered}
use pyverge.Planning.Targets.{
  VersionRange, range_target_resolver, matched, matches, compile, compile_all, compile_spec,
  for_kinds, resolve_by, Resolver, to_latest, multi_target_resolver, found,
}
use pyverge.Planning.Specs.{IsMatched, matching_models, range_target_resolver-highest}
use pyverge.Planning.Aims.{Aims, compile-Aims}
use pyverge.Planning.Finder.{ExtractedEntry}
use pyverge.Planning.Finder.{plan}
use pyverge.Planning.Cached.{IsCoherent, plan_directly, plan-direct}
use pyverge.Identity.{NodeId, EdgeId, NodeEntry, default_discriminator, is_model}
use pyverge.Identity.Order.{linear_node}
use pyverge.Planning.{PlanEntry, key, index, levels, rounds, flat, is_ready, is_descendant_of}
use pyverge.Planning.Filters.{count}
use pyverge.Planning.Levels.{IsBottomUp, levels-IsBottomUp}
use pyverge.Planning.Policy.{
  PolicyEngine, PathPlanEntry, forward, skip, raise, apply, judge, allows, violation, edges_of,
}
use pyverge.Planning.Kept.{conforms, apply-conforms, apply-raise}

abbrev root : PlanEntry ℕ
root = record { object = 0; path = []; item = 10 }

abbrev child : PlanEntry ℕ
child = record { object = 1; path = key (codes "a") ∷ []; item = 20 }

abbrev leaf : PlanEntry ℕ
leaf = record { object = 2; path = key (codes "a") ∷ index 0 ∷ []; item = 30 }

abbrev other : PlanEntry ℕ
other = record { object = 3; path = key (codes "b") ∷ []; item = 40 }

abbrev entries : List (PlanEntry ℕ)
entries = root ∷ child ∷ leaf ∷ other ∷ []

-- The leaf and the other branch come first, the root last.
levels-rounds : levels entries ≡ (leaf ∷ other ∷ []) ∷ (child ∷ []) ∷ (root ∷ []) ∷ []
unfolding levels rounds is_ready is_descendant_of
levels-rounds = refl

levels-IsBottomUp_example :
    ((p : PlanEntry ℕ → Bool) → count p (flat (levels entries)) ≡ count p entries)
    × IsBottomUp (levels entries)
levels-IsBottomUp_example = levels-IsBottomUp entries (
  (λ h. refl, (λ h. cc, (λ h. cc, (λ h. cc, tt)))),
  (
    (λ h. cc, (λ h. refl, (λ h. cc, (λ h. cc, tt)))),
    (
      (λ h. cc, (λ h. cc, (λ h. refl, (λ h. cc, tt)))),
      ((λ h. cc, (λ h. cc, (λ h. cc, (λ h. refl, tt)))), tt),
    ),
  ),
)

abbrev user : ℕ → NodeId ℕ
user v = record { namespace = codes "n"; kind = codes "User"; version = v }

abbrev leg : ℕ → ℕ → EdgeId ℕ
leg v w = record { source = user v; target = user w; discriminator = codes "default" }

abbrev up : PathPlanEntry ℕ
up = record {
  source = user 1;
  target = user 2;
  steps = (user 1, user 2) ∷ [];
  edges = leg 1 2 ∷ [];
}

abbrev down : PathPlanEntry ℕ
down = record {
  source = user 2;
  target = user 1;
  steps = (user 2, user 1) ∷ [];
  edges = leg 2 1 ∷ [];
}

abbrev engine : PolicyEngine
engine = record {
  direction = forward;
  on_direction_violation = skip;
  on_missing_path = raise;
  depth_limit = pos 3;
  on_depth_violation = raise;
}

abbrev strict : PolicyEngine
strict = record {
  direction = forward;
  on_direction_violation = raise;
  on_missing_path = raise;
  depth_limit = pos 3;
  on_depth_violation = raise;
}

abbrev all_there : EdgeId ℕ → Bool
all_there e = true

kept_up : apply engine all_there (up ∷ down ∷ []) ≡ ok (up ∷ [])
unfolding apply judge allows violation edges_of
kept_up = refl

strict-up : apply strict all_there (up ∷ []) ≡ ok (up ∷ [])
unfolding apply judge allows violation edges_of
strict-up = refl

apply-conforms_example : up ∷ [] ≡ keep_if (conforms engine all_there) (up ∷ down ∷ [])
apply-conforms_example = apply-conforms engine all_there (up ∷ down ∷ []) (up ∷ []) kept_up

apply-raise_example : up ∷ [] ≡ up ∷ []
apply-raise_example = apply-raise strict all_there refl refl refl (up ∷ []) (up ∷ []) strict-up

abbrev version : ℕ → NodeEntry ℕ
version v = record {
  id = user v;
  descriptor = some (record {
    ref = record { provider_id = codes "p"; entity_id = codes "User" };
    fields = [];
    references = [];
  });
}

abbrev graph : MigrationGraph ℕ
graph =
    built (version 1 ∷ version 2 ∷ []) (leg 1 2 ∷ [])
      (record {
        name = codes "g";
        namespace = codes "n";
        models_by_ref = none;
        executable_edge_ids = leg 1 2 ∷ [];
        edge_metadata = [];
        digests = [];
        node_digests = [];
        edge_digests = [];
        hook_specs = [];
      })
      (record { version_strategy = codes "semver"; versions = []; content_digest = codes "c" })
      (codes "m")

-- Every entry is brought to version 2, but for version 9.
abbrev to_two : NodeEntry ℕ → Outcome (Option (NodeEntry ℕ))
to_two n = if n.id.version == 9 then ok none else ok (some (version 2))

abbrev extracted : List (ExtractedEntry ℕ)
extracted =
    record { path = []; node = version 1 } ∷ record { path = index 0 ∷ []; node = version 1 } ∷ []

no_paths : IsCoherent graph default_discriminator []
unfolding get
no_paths = record { paths = λ s t p h. cc }

plan-direct_example :
    ((plan graph default_discriminator to_two extracted []).0
      ≡ plan_directly graph default_discriminator to_two extracted)
    × IsCoherent graph default_discriminator
        (plan graph default_discriminator to_two extracted []).1
plan-direct_example = plan-direct graph default_discriminator to_two extracted [] no_paths

-- A text stands for its length as a version.
abbrev parse : Text → Outcome ℕ
parse t = ok (length t)

abbrev settings : BuildOptions ℕ
settings = record {
  name = codes "g";
  namespace = codes "n";
  models_by_ref = none;
  executable_edge_ids = leg 1 2 ∷ [];
  edge_metadata = [];
  digests = [];
  node_digests = [];
  edge_digests = [];
  hook_specs = [];
}

abbrev revised : Revision
revised = record { version_strategy = codes "semver"; versions = []; content_digest = codes "c" }

abbrev below_two : VersionRange
below_two = record { gte = some (codes "a"); less = some (codes "ab"); equal = none }

ranged : range_target_resolver parse graph below_two (version 2) ≡ ok (some (version 1))
unfolding range_target_resolver matched matches last_version kind_versions nodes_for_kind bucket
    build sorted insort_left bisect_left group_by append_to get set_item is_model
ranged = refl

abbrev versions : List (NodeEntry ℕ)
versions = version 1 ∷ version 2 ∷ []

abbrev matching : List (NodeEntry ℕ)
matching =
    matching_models parse versions (leg 1 2 ∷ []) settings revised (codes "m") below_two
      (codes "User")

range_target_resolver-highest_example :
    ((t : NodeEntry ℕ) × (some (version 1) ≡ some t)
      × IsRegistered versions (codes "User") t
      × IsMatched parse versions (leg 1 2 ∷ []) settings revised (codes "m") below_two t
      × All (λ m. lt t.id m.id ≡ false) matching)
    ⊎ ((some (version 1) ≡ none) × (matching ≡ []))
range_target_resolver-highest_example =
    range_target_resolver-highest parse versions (leg 1 2 ∷ []) settings revised (codes "m")
      below_two (version 2) (some (version 1)) ranged

abbrev to_newest : Resolver ℕ
to_newest =
    multi_target_resolver ((codes "*", λ current. found (latest graph current.id.kind)) ∷ [])

compile-Aims_example :
    (for_kinds ((codes "*", to_latest) ∷ []) ≡ resolve_by to_newest) ⊎ Aims to_newest
unfolding compile compile_all compile_spec
compile-Aims_example =
    compile-Aims parse versions (leg 1 2 ∷ []) settings revised (codes "m")
      (for_kinds ((codes "*", to_latest) ∷ [])) to_newest refl
