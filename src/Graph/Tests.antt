-- ===== src/Graph/Tests.antt =====
-- Runs of the migration graph, for tests: three versions of one kind and the edges between them.
use pyverge.Prelude.{
  ℕ, zero, suc, ◌≡◌, ◌⊎◌, refl, true, false, none, some, List, [], ◌∷◌, All, subst, some_inj,
  keep_if,
}
use pyverge.Prelude.Text.{codes, eq_text}
use pyverge.Prelude.Dict.{get, set_item}
use pyverge.Prelude.Linear.{linear_nat, lt}
use pyverge.Prelude.Sorted.{sorted, insort_left, bisect_left}
use pyverge.Prelude.Groups.{bucket, append_to, group_by, contains, add}
use pyverge.Errors.{ok, err, catalog_error}
use pyverge.Identity.{NodeId, NodeEntry, EdgeId, is_model, default_discriminator}
use pyverge.Identity.Order.{linear_node, linear_edge, eq_node, eq_edge}
use pyverge.Backend
use pyverge.Backend.{
  positions, pair_of, eq_pair, index_of, BuildOptions, build, nodes_for_kind, edges_for_kind,
  edges_between, is_executable,
}
use pyverge.Graph.{
  MigrationGraph, Revision, kind_versions, find_edge, first_with, positions_from, hop, walk,
  edge_path, last_version, first_version,
}
use pyverge.Graph.Places.{build-IsIndexed}
use pyverge.Graph.Walk.{IsEdgePath, edge_path-IsEdgePath}
use pyverge.Graph.Usable.{IsEdgeFor}
use pyverge.Graph.Reach.{IsConnected, edge_path_total}
use pyverge.Graph.Lookup.{latest, earliest}
use pyverge.Graph.Extremes.{built, IsRegistered, is_model_of, latest-greatest}

abbrev user : ℕ → NodeId ℕ
user v = record { namespace = codes "default"; kind = codes "User"; version = v }

abbrev model : ℕ → NodeEntry ℕ
model v = record {
  id = user v;
  descriptor = some (record {
    ref = record { provider_id = codes "p"; entity_id = codes "User" };
    fields = [];
    references = [];
  });
}

abbrev step : ℕ → ℕ → EdgeId ℕ
step v w = record { source = user v; target = user w; discriminator = default_discriminator }

abbrev three : List (NodeEntry ℕ)
three = model 2 ∷ model 1 ∷ model 3 ∷ []

abbrev ups : List (EdgeId ℕ)
ups = step 2 3 ∷ step 1 2 ∷ step 3 2 ∷ []

abbrev options : BuildOptions ℕ
options = record {
  name = codes "g";
  namespace = codes "default";
  models_by_ref = none;
  executable_edge_ids = step 1 2 ∷ step 2 3 ∷ [];
  edge_metadata = [];
  digests = [];
  node_digests = [];
  edge_digests = [];
  hook_specs = [];
}

abbrev rev : Revision
rev = record { version_strategy = codes "semver"; versions = []; content_digest = codes "c" }

abbrev small : MigrationGraph ℕ
small = built three ups options rev (codes "m")

path13 : edge_path small (user 1) (user 3) default_discriminator ≡ ok (step 1 2 ∷ step 2 3 ∷ [])
unfolding edge_path kind_versions nodes_for_kind bucket build sorted insort_left bisect_left
    group_by append_to get set_item positions_from walk hop find_edge first_with edges_between
    is_executable contains add is_model Backend.add_all
path13 = refl

edge_path-IsEdgePath_example :
    IsEdgePath small default_discriminator
      (build-IsIndexed three ups options)
      (user 1)
      (user 3)
      (step 1 2 ∷ step 2 3 ∷ [])
edge_path-IsEdgePath_example =
    edge_path-IsEdgePath small default_discriminator (build-IsIndexed three ups options) (user 1)
      (user 3) (step 1 2 ∷ step 2 3 ∷ []) path13

usable12 : IsEdgeFor ups options default_discriminator (model 1) (model 2) (step 1 2)
unfolding contains
usable12 = record { there = refl; source = refl; target = refl; named = refl; runs = refl }

usable23 : IsEdgeFor ups options default_discriminator (model 2) (model 3) (step 2 3)
unfolding contains
usable23 = record { there = refl; source = refl; target = refl; named = refl; runs = refl }

-- Each version has its edge to the next one.
connected : IsConnected ups options default_discriminator (kind_versions small (codes "User")) true
unfolding kind_versions nodes_for_kind bucket build sorted insort_left bisect_left group_by
    append_to get set_item is_model
connected zero a b ha hb = (
  step 1 2,
  subst (λ c. IsEdgeFor ups options default_discriminator c b (step 1 2)) (some_inj ha)
      (subst (λ c. IsEdgeFor ups options default_discriminator (model 1) c (step 1 2)) (some_inj hb)
        usable12),
)
connected (suc zero) a b ha hb = (
  step 2 3,
  subst (λ c. IsEdgeFor ups options default_discriminator c b (step 2 3)) (some_inj ha)
      (subst (λ c. IsEdgeFor ups options default_discriminator (model 2) c (step 2 3)) (some_inj hb)
        usable23),
)
connected (suc (suc zero)) a b ha hb = cc
connected (suc (suc (suc i))) a b ha hb = cc

place :
    (v i : ℕ)
    → get (user v) (positions_from 0 [] (model 1 ∷ model 2 ∷ model 3 ∷ [])) ≡ some i
    → get (user v) (positions_from 0 [] (kind_versions small (codes "User"))) ≡ some i
unfolding kind_versions nodes_for_kind bucket build sorted insort_left bisect_left group_by
    append_to get set_item is_model
place v i h = h

at0 : get (user 1) (positions_from 0 [] (model 1 ∷ model 2 ∷ model 3 ∷ [])) ≡ some 0
unfolding get set_item positions_from
at0 = refl

at2 : get (user 3) (positions_from 0 [] (model 1 ∷ model 2 ∷ model 3 ∷ [])) ≡ some 2
unfolding get set_item positions_from
at2 = refl

edge_path_total_example :
    (path : List (EdgeId ℕ)) × (edge_path small (user 1) (user 3) default_discriminator ≡ ok path)
edge_path_total_example =
    edge_path_total ups options default_discriminator three rev (codes "m") (user 1) (user 3) 0 2
      refl (place 1 0 at0) (place 3 2 at2) connected

latest3 : latest small (codes "User") ≡ ok (model 3)
unfolding latest last_version kind_versions nodes_for_kind bucket build sorted insort_left
    bisect_left group_by append_to get set_item is_model
latest3 = refl

earliest1 : earliest small (codes "User") ≡ ok (model 1)
unfolding earliest first_version kind_versions nodes_for_kind bucket build sorted insort_left
    bisect_left group_by append_to get set_item is_model
earliest1 = refl

latest-greatest_example :
    ((n : NodeEntry ℕ) × (latest small (codes "User") ≡ ok n)
      × IsRegistered three (codes "User") n
      × All (λ m. lt n.id m.id ≡ false) (keep_if (is_model_of (codes "User")) three))
    ⊎ ((latest small (codes "User") ≡ err catalog_error)
        × (keep_if (is_model_of (codes "User")) three ≡ []))
latest-greatest_example = latest-greatest three ups options rev (codes "m") (codes "User")

index2 : index_of (build three ups options) (user 2) ≡ some 1
unfolding index_of build positions sorted insort_left bisect_left append_to get set_item bucket
index2 = refl
