-- ===== src/Registry/Health.antt =====
-- core/registry/memory.py: the health and reference indexes and how changes refresh them.
use pyverge.Prelude.{
  Bool, not, Option, none, some, List, [], ◌∷◌, ◌++◌, map, ◌==◌, if◌then◌else◌, any_of, keep_if, Eq,
}
use pyverge.Prelude.Text.{Text, eq_text}
use pyverge.Prelude.Dict.{Dict, get, set_item, del_item}
use pyverge.Prelude.Linear.{Linear}
use pyverge.Prelude.Groups.{bucket, add}
use pyverge.Identity.{NodeId, NodeEntry}
use pyverge.Identity.Order.{linear_node, eq_node}
use pyverge.Registry.{
  EdgeEntry, Entity, node, edge, EntityKey, key_of, namespace_of, references_of, eq_key,
  HealthIndex, no_health, Registry, Services,
}

-- `frozenset(...)` of references.
unfoldable pub as_set : {V : Type 0} → ⦃o : Linear V⦄ → List (NodeId V) → List (NodeId V)
as_set [] = []
as_set (n ∷ ns) = add n (as_set ns)

module _ {V M : Type 0} ⦃o : Linear V⦄ where
  -- `entities.add(entity)`, `entities.discard(entity)` and `entities | others`
  unfoldable pub has_entity : Entity V M → List (Entity V M) → Bool
  has_entity e es = any_of (λ x. key_of x == key_of e) es

  unfoldable pub add_entity : Entity V M → List (Entity V M) → List (Entity V M)
  unfolding has_entity
  add_entity e es = if has_entity e es then es else es ++ e ∷ []

  unfoldable pub discard_entity : Entity V M → List (Entity V M) → List (Entity V M)
  discard_entity e es = keep_if (λ x. not (key_of x == key_of e)) es

  unfoldable pub add_entities : List (Entity V M) → List (Entity V M) → List (Entity V M)
  unfolding add_entity
  add_entities s [] = s
  add_entities s (e ∷ es) = add_entities (add_entity e s) es

-- A bucket that an entity leaves; an empty one is deleted.
module _ {V M K : Type 0} ⦃o : Linear V⦄ ⦃q : Eq K⦄ where
  abbrev put_back : K → List (Entity V M) → Dict K (List (Entity V M)) → Dict K (List (Entity V M))
  put_back k [] d = del_item k d
  put_back k (e ∷ es) d = set_item k (e ∷ es) d

  abbrev without :
      K
      → Entity V M
      → Option (List (Entity V M))
      → Dict K (List (Entity V M))
      → Dict K (List (Entity V M))
  without k e none d = d
  without k e (some es) d = put_back k (discard_entity e es) d

  unfoldable pub leave : K → Entity V M → Dict K (List (Entity V M)) → Dict K (List (Entity V M))
  unfolding discard_entity
  leave k e d = without k e (get k d) d

  unfoldable pub join : K → Entity V M → Dict K (List (Entity V M)) → Dict K (List (Entity V M))
  unfolding add_entity
  join k e d = set_item k (add_entity e (bucket k d)) d

module _ {V M : Type 0} ⦃o : Linear V⦄ where
  unfoldable pub leave_all :
      List (NodeId V)
      → Entity V M
      → Dict (NodeId V) (List (Entity V M))
      → Dict (NodeId V) (List (Entity V M))
  unfolding leave
  leave_all [] e d = d
  leave_all (n ∷ ns) e d = leave_all ns e (leave n e d)

  unfoldable pub join_all :
      List (NodeId V)
      → Entity V M
      → Dict (NodeId V) (List (Entity V M))
      → Dict (NodeId V) (List (Entity V M))
  unfolding join
  join_all [] e d = d
  join_all (n ∷ ns) e d = join_all ns e (join n e d)

module _ {V : Type 0} ⦃o : Linear V⦄ where
  abbrev keep_references :
      EntityKey V
      → List (NodeId V)
      → Dict (EntityKey V) (List (NodeId V))
      → Dict (EntityKey V) (List (NodeId V))
  keep_references k [] d = d
  keep_references k (n ∷ ns) d = set_item k (n ∷ ns) d

module _ {V M I : Type 0} ⦃o : Linear V⦄ where
  unfoldable pub set_references :
      Entity V M → List (NodeId V) → HealthIndex V M I → HealthIndex V M I
  unfolding leave_all join_all
  set_references e references h =
      let old = bucket (key_of e) h.references_by_entity in
      record {
        issues = h.issues;
        by_namespace = h.by_namespace;
        references_to = join_all references e (leave_all old e h.references_to);
        references_by_entity =
            keep_references (key_of e) references (del_item (key_of e) h.references_by_entity);
      }

  unfoldable pub set_health : Entity V M → List I → HealthIndex V M I → HealthIndex V M I
  unfolding leave join
  set_health e [] h = record {
    issues = del_item (key_of e) h.issues;
    by_namespace = leave (namespace_of e) e h.by_namespace;
    references_to = h.references_to;
    references_by_entity = h.references_by_entity;
  }
  set_health e (i ∷ is) h = record {
    issues = set_item (key_of e) (i ∷ is) h.issues;
    by_namespace = join (namespace_of e) e (leave (namespace_of e) e h.by_namespace);
    references_to = h.references_to;
    references_by_entity = h.references_by_entity;
  }

module _ {V M : Type 0} ⦃o : Linear V⦄ where
  unfoldable pub affected_by_edge_change : EdgeEntry V M → List (Entity V M)
  unfolding add_entities
  affected_by_edge_change e = add_entities [] (edge e ∷ node e.source ∷ node e.target ∷ [])

  unfoldable pub edge_entities : Dict Text (List (EdgeEntry V M)) → List (Entity V M)
  edge_entities [] = []
  edge_entities ((kind, es) ∷ d) = map (λ e. edge e) es ++ edge_entities d

module _ {V M H I : Type 0} ⦃o : Linear V⦄ where
  abbrev pub with_health : Registry V M H I → HealthIndex V M I → Registry V M H I
  with_health r h = record {
    namespace = r.namespace;
    reconstructs = r.reconstructs;
    digest_index = r.digest_index;
    by_versions = r.by_versions;
    by_kinds = r.by_kinds;
    by_models = r.by_models;
    migrations = r.migrations;
    edges_by_version = r.edges_by_version;
    hooks = r.hooks;
    health = h;
  }

  unfoldable pub drop_entity : Entity V M → Registry V M H I → Registry V M H I
  unfolding set_health set_references
  drop_entity e r = with_health r (set_references e [] (set_health e [] r.health))

  all_issues :
      List (Registry V M H I → Entity V M → List I) → Registry V M H I → Entity V M → List I
  all_issues [] r e = []
  all_issues (l ∷ ls) r e = l r e ++ all_issues ls r e

  -- One round of `_refresh_health`: the references first, which the linters then see.
  unfoldable pub refresh_one : Services V M H I → Entity V M → Registry V M H I → Registry V M H I
  unfolding set_references set_health all_issues as_set
  refresh_one s e r =
      let referring = with_health r (set_references e (as_set (references_of e)) r.health) in
      with_health referring (set_health e (all_issues s.linters referring e) referring.health)

  unfoldable pub refresh_health :
      Services V M H I → List (Entity V M) → Registry V M H I → Registry V M H I
  unfolding refresh_one
  refresh_health s [] r = r
  refresh_health s (e ∷ es) r = refresh_health s es (refresh_one s e r)

  unfoldable pub affected_by_node_change : NodeEntry V → Registry V M H I → List (Entity V M)
  unfolding add_entities
  affected_by_node_change n r =
      add_entities (add_entities (node n ∷ []) (bucket n.id r.health.references_to))
        (map (λ e. edge e) (bucket n.id r.edges_by_version))

  unfoldable pub rebuild_health : Services V M H I → Registry V M H I → Registry V M H I
  unfolding refresh_health add_entities edge_entities
  rebuild_health s r =
      refresh_health s
        (add_entities [] (map (λ n. node n) r.by_versions ++ edge_entities r.migrations))
        (with_health r no_health)
