-- ===== src/Execution/StepTests.antt =====
-- Steps, entries and runs, and the theorems at concrete inputs. The world is the record of the
-- telemetry and the scopes that are open.
use pyverge.Prelude.{
  ℕ, ◌≡◌, refl, ap, true, none, some, length, List, [], ◌∷◌, ◌++◌, All, get_elem?, if◌then◌else◌,
  eq_nat,
}
use pyverge.Prelude.Text.{Text, codes, eq_text}
use pyverge.Prelude.Int.{pos}
use pyverge.Prelude.Linear.{linear_nat}
use pyverge.Prelude.Effects.{exception, plain, Result, ok, Action, pure, raise, ◌>>=◌}
use pyverge.Errors
use pyverge.Identity.{NodeId, EdgeId}
use pyverge.Planning.{key}
use pyverge.Payload.{Value, null, text, dict, field, end}
use pyverge.PlanCache.{init}
use pyverge.Telemetry.{
  StepContext, TelemetryPublisher, TelemetryEvent, all, step_started, step_failed, run_started,
  emit_success, emit_failure, emit, emits_success, emits_failure, enabled, fan_out,
}
use pyverge.Telemetry.Fanout.{Records, reported}
use pyverge.Middleware.{Call, Answer, Backend, value}
use pyverge.Execution.{EntryResult}
use pyverge.Execution.Scopes.{Scope, unwind, with_stack}
use pyverge.Execution.Steps.{
  Returned, now, scope, Hook, Naming, run_sync, run_async, reported_run, migrate, before, enter_all,
  on_error, invoke_hook, raise_on_awaitable, classified, migration_error, each,
}
use pyverge.Execution.Kept.{IsScope}
use pyverge.Execution.Blocks.{Ensures, IsKeptHook}
use pyverge.Execution.Reports.{run_sync-keeps, kept-run_sync, ending}
use pyverge.Execution.Bindings.{MigrationBinding}
use pyverge.Execution.Entries.{ExecutionEntry, Run, execute_sync, execute_async}
use pyverge.Execution.Same.{execute_async-execute_sync}
use pyverge.Execution.Stamps.{HoldsText, execute_sync-version}
use pyverge.Execution.Coordinator.{Request, Parts, plans, AreAnswers, plans-AreAnswers}
use pyverge.Execution.Planner.{PathPlan}
use pyverge.Planning.Finder.{ExtractedEntry}
use pyverge.PlanCache.Keys.{
  Target, callable_target, other_target, is_callable, Formats, PlanKey, eq_plan_key,
}
use pyverge.Execution.Runner.{deep, execute_as, await_result, layered}
use pyverge.Execution.Announced.{
  inner_run, run_ending, awaited_ending, kept-execute_as, kept-await_result,
}

abbrev World : Type 0
World = List (TelemetryEvent ℕ) × List ℕ

abbrev record_of : World → List (TelemetryEvent ℕ)
record_of w = w.0

abbrev open_scopes : World → List ℕ
open_scopes w = w.1

abbrev adapter : TelemetryEvent ℕ → Action World Unit
adapter e w = (ok tt, (w.0 ++ e ∷ [], w.1))

abbrev publisher : TelemetryPublisher World ℕ
publisher = record {
  adapters = adapter ∷ [];
  mode = all;
  has_rate = true;
  is_sampled = λ e. true;
  log = pure tt;
}

records : All (Records record_of publisher.log) publisher.adapters
records = (record { emits = λ e w. (refl, refl) }, tt)

abbrev tail : List ℕ → List ℕ
tail [] = []
tail (n ∷ l) = l

abbrev scope_seven : Scope World
scope_seven = record {
  enter = λ w. (ok tt, (w.0, 7 ∷ w.1));
  exit = λ o w. (ok tt, (w.0, tail w.1));
}

abbrev hook : Hook World ℕ
hook = record {
  before_migrate = λ s v. pure (now (scope scope_seven));
  after_migrate = λ s v m. pure (now tt);
  on_error = λ s v e. pure (now tt);
}

opens : IsScope open_scopes scope_seven
opens = record {
  push = λ k. 7 ∷ k;
  entering = λ w h. refl;
  refused = λ e w h. cc;
  leaving = λ o w k h. ap tail h;
}

abbrev node : ℕ → NodeId ℕ
node v = record { namespace = codes "n"; kind = codes "User"; version = v }

abbrev edge : EdgeId ℕ
edge = record { source = node 1; target = node 2; discriminator = codes "default" }

abbrev step : StepContext ℕ
step = record {
  run_id = codes "r";
  path = [];
  index = 0;
  source = node 1;
  target = node 2;
  edge = edge;
  name = codes "m";
}

abbrev names : Naming
names = record { str = λ e. codes "boom"; source = codes "User@1"; target = codes "User@2" }

-- A migration that raises.
abbrev failing : Action World (Returned World Value)
failing = raise (exception plain (codes "boom"))

abbrev start : World
start = ([], 1 ∷ [])

run_sync-keeps_example :
    (open_scopes (run_sync names publisher (pure (hook ∷ [])) step null failing start).1
      ≡ open_scopes start)
    × (open_scopes (run_async names publisher (pure (hook ∷ [])) step null failing start).1
        ≡ open_scopes start)
run_sync-keeps_example =
    run_sync-keeps open_scopes names publisher (pure (hook ∷ [])) step null failing
      (record { keeps_log = λ w. refl; keeps_adapters = (λ e w. refl, tt) })
      (λ w. (
        refl,
        (
          record {
            keeps_before = λ s v w. (refl, opens);
            keeps_after = λ s v m w. (refl, tt);
            keeps_on_error = λ s v e w. (refl, tt);
          },
          tt,
        ),
      ))
      (λ w. (refl, tt)) start

unrecorded : Ensures record_of (All (IsKeptHook record_of)) (pure (hook ∷ []))
unrecorded w = (
  refl,
  (
    record {
      keeps_before = λ s v w. (
        refl,
        record {
          push = λ k. k;
          entering = λ w h. refl;
          refused = λ e w h. refl;
          leaving = λ o w k h. h;
        },
      );
      keeps_after = λ s v m w. (refl, tt);
      keeps_on_error = λ s v e w. (refl, tt);
    },
    tt,
  ),
)

kept-run_sync_example :
    (record_of (run_sync names publisher (pure (hook ∷ [])) step null failing start).1
      ≡ record_of start
        ++ (reported record_of publisher records (step_started step)
            ++ ending record_of publisher records step
                (run_sync names publisher (pure (hook ∷ [])) step null failing start).0))
    × (record_of (run_async names publisher (pure (hook ∷ [])) step null failing start).1
        ≡ record_of start
          ++ (reported record_of publisher records (step_started step)
              ++ ending record_of publisher records step
                  (run_async names publisher (pure (hook ∷ [])) step null failing start).0))
kept-run_sync_example =
    kept-run_sync record_of publisher records names (pure (hook ∷ [])) step null failing unrecorded
      (λ w. (refl, tt)) start

-- An entry of one step, whose migration empties the mapping.
abbrev empties : MigrationBinding World ℕ
empties = record { func = λ v c. pure (now (dict end)); name = codes "m" }

abbrev entry : ExecutionEntry World ℕ ℕ
entry = record {
  plan = record {
    path = [];
    source = node 1;
    target = node 2;
    steps = (node 1, node 2) ∷ [];
    edges = edge ∷ [];
  };
  migrations = empties ∷ [];
  hooks = (hook ∷ []) ∷ [];
}

abbrev run : Run World ℕ ℕ
run = record {
  run_id = codes "r";
  telemetry = publisher;
  view = 0;
  version_property = codes "version";
  show = λ v. v ∷ [];
  names = λ s t. names;
}

execute_async-execute_sync_example : execute_async run entry null ≡ execute_sync run entry null
execute_async-execute_sync_example =
    execute_async-execute_sync run entry
      (
        (
          record {
            plain_before = λ s v w. (refl, tt);
            plain_after = λ s v m w. (refl, tt);
            plain_on_error = λ s v e w. (refl, tt);
          },
          tt,
        ),
        tt,
      )
      ((λ v c w. (refl, tt)), tt) null

abbrev migrated : EntryResult
migrated = record { path = []; value = dict (field (key (codes "version")) (text (2 ∷ [])) end) }

executed : (execute_sync run entry null start).0 ≡ ok migrated
unfolding execute_sync emit_success fan_out
executed = refl

execute_sync-version_example :
    (migrated.path ≡ entry.plan.path)
    × ((ends : NodeId ℕ × NodeId ℕ) × (get_elem? entry.plan.steps 0 ≡ some ends)
        × HoldsText run.version_property (run.show ends.1.version) migrated.value)
execute_sync-version_example = execute_sync-version run entry 0 null start refl executed

-- A coordinator with room for one plan; the extractor finds one node, and the finder refuses a
-- target that is callable.
abbrev formats : Formats ℕ
formats = record {
  repr_pairs = λ ps. codes "{}";
  repr_texts = λ ts. codes "[]";
  str_node = λ n. n.id.kind;
}

-- A plan of as many entries as were extracted, all at the root and without a step.
abbrev idle_plan : List (ExtractedEntry ℕ) → PathPlan ℕ
idle_plan [] = []
idle_plan (e ∷ es) =
    record {
      object = length es;
      path = [];
      item = record { path = []; source = node 1; target = node 1; steps = []; edges = [] };
    }
    ∷ idle_plan es

abbrev parts : Parts World ℕ Unit Unit ℕ
parts = record {
  formats = formats;
  extractor = λ d model depth. ([], (0, record { id = node d; descriptor = none })) ∷ [];
  find = λ entries target model.
      if is_callable target then Errors.err Errors.catalog_error else Errors.ok (idle_plan entries);
  bindings = record { migrations = []; hooks_by_edge = [] };
}

abbrev request : ℕ → Target → Request ℕ
request payload target = record {
  payload = payload;
  target = target;
  source_model = none;
  max_depth = 4;
}

abbrev requests : List (Request ℕ)
requests =
    request 3 (other_target (codes "'latest'"))
    ∷ request 3 (callable_target (codes "<f>"))
    ∷ request 5 (other_target (codes "'latest'"))
    ∷ []

new_cache :
    init {K = PlanKey} {V = PathPlan ℕ} (pos 1) ≡ some (record { size = pos 1; entries = [] })
unfolding init
new_cache = refl

plans-AreAnswers_example :
    AreAnswers parts [] requests (plans parts requests (record { size = pos 1; entries = [] })).0
plans-AreAnswers_example =
    plans-AreAnswers parts (pos 1) (record { size = pos 1; entries = [] }) requests new_cache

-- A backend that runs the step, in a middleware that passes it on.
abbrev stepping : Backend World Value Value
stepping = record {
  class_name = codes "Stepping";
  execute = λ c.
      run_sync names publisher (pure (hook ∷ [])) step c.payload failing >>= λ v. pure (value v);
}

abbrev layers : List (Backend World Value Value → Backend World Value Value)
layers = (λ b. b) ∷ []

abbrev call_of : Text → Value → Call Value
call_of run_id payload = record { run_id = run_id; entries = 1; payload = payload }

abbrev outcome : Result (Answer World Value) × World
outcome =
    execute_as publisher (pure (codes "run_1")) layers stepping deep call_of null (codes "r") start

-- What the step reports while the run is open.
abbrev reports : List (TelemetryEvent ℕ)
reports =
    step_started step
    ∷ step_failed step (migration_error names (exception plain (codes "boom")))
    ∷ []

step_reports :
    record_of
      (inner_run record_of publisher records
        (pure (codes "run_1"))
        layers
        stepping
        deep
        call_of
        (codes "r")
        null
        start).1
    ≡ record_of (emit_success publisher (run_started (codes "r")) start).1 ++ reports
unfolding layered run_sync reported_run migrate before enter_all on_error invoke_hook
    raise_on_awaitable classified migration_error each unwind with_stack emit_success emit_failure
    emit emits_success emits_failure enabled fan_out
step_reports = refl

kept-execute_as_example :
    record_of outcome.1
    ≡ record_of start
      ++ (reported record_of publisher records (run_started (codes "r"))
          ++ (reports
              ++ run_ending record_of publisher records
                  (pure (codes "run_1"))
                  layers
                  stepping
                  deep
                  call_of
                  (codes "r")
                  outcome.0))
kept-execute_as_example =
    kept-execute_as record_of publisher records (pure (codes "run_1")) layers stepping deep call_of
      (codes "r") null start reports step_reports

abbrev awaited : Result Value × World
awaited =
    await_result publisher (pure (codes "run_1")) layers stepping deep call_of (codes "r")
      (raise (exception plain (codes "boom"))) start

kept-await_result_example :
    record_of awaited.1
    ≡ record_of start
      ++ awaited_ending record_of publisher records
          (pure (codes "run_1"))
          layers
          stepping
          deep
          call_of
          (codes "r")
          awaited.0
kept-await_result_example =
    kept-await_result record_of publisher records (pure (codes "run_1")) layers stepping deep
      call_of (codes "r") (raise (exception plain (codes "boom"))) start
