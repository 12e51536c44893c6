-- ===== src/Lib.antt =====
-- Pyverge keeps versioned models and the migrations between their versions: a registry collects
-- them, a locked graph answers which edges lead from one version to another, a planner turns the
-- versioned nodes of a payload into ordered steps, and a runner executes the steps through
-- middleware. This library models that core and proves what the parts promise each other.
--
-- What models what (paths from the repository's root):
--   Identity: src/pyverge/core/versioning/identity/nodes.py, edges.py and metadata.py: `NodeId`,
--     `EdgeId`, entries with and without a model, their validation and their order.
--   Backend: src/pyverge/core/graph/backend/indexed.py: `IndexedBackend.build` and its lookups.
--   Graph: src/pyverge/core/graph/graph.py: `MigrationGraph`, its lookups (Graph.Lookup) and the
--     walk of `edge_path` (`hop` is one round of its loop, `walk` is the loop).
--   Search: the same file: `neighbors` and `shortest_path`, with `scan` for the loop over the
--     edges of a node, and `_reconstruct`; its walks along a graph's edges are in Search.Walks.
--   Topological: the same file: `topological_sort`, with `release` for the loop over the edges of a
--     node and `drain` for the loop over the deque.
--   GraphStore: src/pyverge/core/graph/store.py: `MemoryGraphStore.save` and `load`.
--   Planning: src/pyverge/core/graph/planning/path.py and plan.py: the levels of a plan;
--     Planning.Policy: direction.py and policy.py beside them; Planning.Finder: finder.py, whose
--     cache of paths is passed along; Planning.Targets: targets.py.
--   Registry: src/pyverge/core/registry/memory.py: `Registry`, with its health and reference
--     indexes (Registry.Health), entries (Registry.Nodes), edges (Registry.Edges), migration
--     requests, removals and ranges (Registry.Requests), hooks (Registry.Hooks), `delete_kind`
--     (Registry.Kinds) and the read-only lookups (Registry.Lookup, with severities of types.py).
--   Payload: the JSON values of a run and `Path.get` and `Path.set` of planning/path.py.
--   Telemetry: src/pyverge/runtime/telemetry/__init__.py: the events and their publisher.
--   Execution: src/pyverge/runtime/plan.py: results in a payload; Execution.Steps: `StepInvoker`,
--     with `ExitStack` in Execution.Scopes; Execution.Entries: `ExecutionEntry` and
--     strategies.py; Execution.Planner: planner.py; Execution.Bindings: migrations.py;
--     Execution.Backends: backends/threaded.py and async_.py; Execution.Runner: runner.py;
--     Execution.Coordinator: coordinator.py.
--   PlanCache: src/pyverge/runtime/plan_cache.py: the least-recently-used cache of plans, with its
--     keys in PlanCache.Keys.
--   Middleware: src/pyverge/runtime/middleware/: audit, idempotency, transaction and retry.
--   Errors: the exceptions of the catalogue and the graph, by their classes.
--   Prelude: lists, texts, dictionaries in insertion order, `bisect` on sorted lists, orders.
--
-- How the parts interact: Registry and Backend both keep entries sorted by the order of Identity.
-- Graph reads a built Backend only. Planning.Policy asks the graph for single migrations through
-- a function. Execution runs the levels of Planning on a payload, asks PlanCache for known plans and
-- reports through Telemetry; a runner wraps its backend in the layers of Middleware, each of which
-- wraps a backend and gives a backend.
--
-- How code is modelled. A method that changes state is a function that gives its result or its
-- exception together with the state it leaves, also where it raises after a change. An exception
-- is named by its class; messages are kept only where the code compares or reports them. A text
-- is a list of code points, so `<` on texts is theirs. A set is a list without repetition, in the
-- order of insertion. One version strategy is fixed in a graph or a registry, as a type with a
-- linear order whose equal elements are the same; Identity.Mixed treats two strategies with the
-- TypeError between them. Semver build metadata, which compares equal and is not, is left out.
-- Objects are told from equal ones only where the code uses `id` (Planning).
--
-- Loops: `walk` runs on the distance of the two indexes, which the loop of the code takes down to
-- zero; `search` on two more than the number of edges, since each node but the first is met by an
-- edge of its own, and `reconstruct` on the number of nodes met; `drain` on one
-- more than the number of nodes; `rounds` of a plan on the number of entries, of which each round
-- takes one at least; the attempts of a retry on their bound; the loop over an entry's steps on
-- their number. Everything else is structural.
--
-- What is given, not modelled: the hosts' services (audit sink, transaction manager, idempotency
-- store, the wrapped backend, the sleep between attempts) are actions on a world; the health rules
-- are functions of the registry and an entity; the hash of an executable edge is a function; the
-- parser of versions, and the reflection that reconstructs models and resolves migration
-- callables, may answer or raise. Hooks, scopes, migrations and telemetry adapters are actions on a
-- world too; they give new values and do not change the ones they get. How Python
-- writes values out in the keys of plans (`repr`, `str`) is a function, too.
--
-- What is left out: adapters, command line, discovery, schemas, telemetry adapters and
-- settings, which are integrations with third-party packages; the managers, which forward;
-- canonical hashing; the igraph and rustworkx backends; pools of threads and processes; and, so
-- far, JSON Patch.
pub mod Backend
pub mod Errors
pub mod Execution
pub mod Graph
pub mod GraphStore
pub mod Identity
pub mod Middleware
pub mod Payload
pub mod PlanCache
pub mod Planning
pub mod Prelude
pub mod Registry
pub mod Search
pub mod Telemetry
pub mod Topological
