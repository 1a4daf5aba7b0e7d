-- ===== src/Runtime/Scheduler.antt =====
-- packages/runtime/src/scheduler.ts: `computeReadyTasks` and `RunSupervisor`. What other code does
-- to the supervisor while a `tick` awaits is an argument, as is the result of what it awaits.
pub mod Readiness
pub mod Offers
pub mod Selection
pub mod Launching
pub mod Capacity
pub mod Slots
pub mod Progress
use dark_kitchen_orchestrato.Prelude.{
  ℕ, zero, suc, ◌-◌, String, Bool, true, false, not, ◌&&◌, Option, none, some, or_else, List, [],
  ◌∷◌, ◌++◌, map, Result, ok, err, ◌>>=◌, length, take, filter, all, is_some, if◌then◌else◌,
}
use dark_kitchen_orchestrato.Prelude.Sets
use dark_kitchen_orchestrato.Prelude.Maps
use dark_kitchen_orchestrato.Core.Ids.{DomainError, cyclic}
use dark_kitchen_orchestrato.Core.Domain.{
  Task, TaskStatus, ready, is_completed, is_ready, is_backlog, is_blocks, TaskDependency, TaskGraph,
}
use dark_kitchen_orchestrato.Core.Graph.{validate_task_graph}

pub data ScheduleError : Type 0 where
  cyclic_graph launch_failed : ScheduleError
  invalid_graph : DomainError → ScheduleError

-- A `DomainValidationError` whose message has the word `cycle` becomes a `CyclicGraphError`.
abbrev pub schedule_error : DomainError → ScheduleError
schedule_error cyclic = cyclic_graph
schedule_error e = invalid_graph e

-- `tasks.map((t) => t.id)`
abbrev pub task_ids : List Task → List String
task_ids [] = []
task_ids (t ∷ ts) = t.id ∷ task_ids ts

-- The graph that is validated; the project and the times play no part in it.
abbrev pub checked_graph : List Task → List TaskDependency → TaskGraph
checked_graph tasks dependencies = record {
  id = "scheduler-check";
  project_id = elim tasks [ [] ↦ "unknown" | t ∷ ts ↦ t.project_id ];
  task_ids = task_ids tasks;
  dependencies = dependencies;
  created_at = "now";
  updated_at = "now";
}

abbrev pub check_graph : List Task → List TaskDependency → Result ScheduleError (Unit {0})
check_graph tasks dependencies = elim (validate_task_graph (checked_graph tasks dependencies)) [
  | ok u ↦ ok u
  | err e ↦ err (schedule_error e)
]

-- `completedTaskIds`
abbrev pub completed_ids : List Task → List String
completed_ids tasks = Sets.of_list (task_ids (filter (λ t. is_completed t.status) tasks))

-- `blockedBy`, the blockers of each task that has some.
unfoldable pub blocked_by :
    List TaskDependency → List (String × List String) → List (String × List String)
blocked_by [] m = m
blocked_by (d ∷ ds) m = blocked_by ds (
    if is_blocks d.kind
    then Maps.put d.task_id (Sets.add d.depends_on_task_id (or_else (Maps.get d.task_id m) [])) m
    else m)

-- `[...blockers].every((blockerId) => completedTaskIds.has(blockerId))`
abbrev pub is_unblocked : List TaskDependency → List String → String → Bool
is_unblocked dependencies completed t =
    all (λ b. Sets.has b completed) (or_else (Maps.get t (blocked_by dependencies [])) [])

-- `computeReadyTasks`
unfoldable pub compute_ready_tasks :
    List Task → List TaskDependency → List String → Result ScheduleError (List Task)
compute_ready_tasks tasks dependencies active_tasks = check_graph tasks dependencies >>= λ _. ok (
    filter
      (λ t.
        is_ready t.status
        && not (Sets.has t.id active_tasks)
        && is_unblocked dependencies (completed_ids tasks) t.id)
      tasks)

pub record SchedulerConfig : Type 0 where
  pub max_parallel_tasks : ℕ
  -- `autoPromoteDependents !== false`
  pub auto_promote_dependents : Bool

-- The state of a `RunSupervisor`.
pub record Supervisor : Type 0 where
  pub active_runs : List (String × String)
  pub completed_tasks : List String
  pub manually_paused : List String

-- What other code may do while a `tick` awaits: it calls a method, or another `tick`, which nothing
-- keeps from overlapping with this one, comes to the end of a launch.
pub data Op : Type 0 where
  complete_task fail_task pause_task resume_task stop_task retry_task recover_paused : String → Op
  recover_active launch_elsewhere : String → String → Op

unfoldable pub perform : Op → Supervisor → Supervisor
perform (complete_task t) s = record s {
  active_runs = Maps.delete t s.active_runs;
  completed_tasks = Sets.add t s.completed_tasks;
}
perform (fail_task t) s = record s { active_runs = Maps.delete t s.active_runs }
perform (pause_task t) s = record s { manually_paused = Sets.add t s.manually_paused }
perform (resume_task t) s = record s { manually_paused = Sets.delete t s.manually_paused }
perform (stop_task t) s = record {
  active_runs = Maps.delete t s.active_runs;
  completed_tasks = Sets.delete t s.completed_tasks;
  manually_paused = Sets.add t s.manually_paused;
}
perform (retry_task t) s = record {
  active_runs = Maps.delete t s.active_runs;
  completed_tasks = Sets.delete t s.completed_tasks;
  manually_paused = Sets.delete t s.manually_paused;
}
perform (recover_active t r) s = record s {
  active_runs = Maps.put t r s.active_runs;
  completed_tasks = Sets.delete t s.completed_tasks;
}
perform (launch_elsewhere t r) s = record s { active_runs = Maps.put t r s.active_runs }
perform (recover_paused t) s = record {
  active_runs = Maps.delete t s.active_runs;
  completed_tasks = Sets.delete t s.completed_tasks;
  manually_paused = Sets.add t s.manually_paused;
}

unfoldable pub perform_all : List Op → Supervisor → Supervisor
perform_all [] s = s
perform_all (o ∷ os) s = perform_all os (perform o s)

-- What the awaited calls do: `promoteToReady` fulfils (`true`) or rejects, the launcher returns a
-- run or rejects (`none`), and other code acts on the supervisor before they settle.
pub record Environment : Type 0 where
  pub promote : String → List Op × Bool
  pub launch : String → List Op × Option String

-- The loop of `promoteDependents` over the promotable tasks: a rejection is logged and passed over.
unfoldable pub promote_each :
    Environment → List String → List String → Supervisor → Supervisor × List String
promote_each env [] promoted s = (s, promoted)
promote_each env (t ∷ ts) promoted s =
    promote_each env ts (if (env.promote t).1 then Sets.add t promoted else promoted)
      (perform_all (env.promote t).0 s)

abbrev pub is_promotable : Supervisor → List TaskDependency → List Task → Task → Bool
is_promotable s dependencies tasks t =
    is_backlog t.status
    && not (Maps.has t.id s.active_runs)
    && not (Sets.has t.id s.completed_tasks)
    && is_unblocked dependencies (completed_ids tasks) t.id

-- `effectiveTasks`: the promoted tasks read as ready.
abbrev pub make_ready : List String → List Task → List Task
make_ready promoted [] = []
make_ready promoted (t ∷ ts) =
    (if Sets.has t.id promoted then record t { status = ready } else t) ∷ make_ready promoted ts

-- `promoteDependents`
unfoldable pub promote_dependents :
    SchedulerConfig
    → Environment
    → List Task
    → List TaskDependency
    → Supervisor
    → Supervisor × List Task
promote_dependents config env tasks dependencies s =
    if config.auto_promote_dependents
    then (let promotable = task_ids (filter (is_promotable s dependencies tasks) tasks) in
        let (s', promoted) = promote_each env promotable [] s in (s', make_ready promoted tasks))
    else (s, tasks)

-- The loop of `tick` that launches. What was launched before a rejection stays active.
unfoldable pub launch_each :
    Environment
    → List String
    → List String
    → Supervisor
    → Supervisor × Result ScheduleError (List String)
launch_each env [] launched s = (s, ok launched)
launch_each env (t ∷ ts) launched s = elim (Maps.has t s.active_runs) [
  | true ↦ launch_each env ts launched s
  | false ↦ elim ((env.launch t).1) [
    | none ↦ (perform_all (env.launch t).0 s, err launch_failed)
    | some run_id ↦
        let s' = perform_all (env.launch t).0 s in
        launch_each env ts (launched ++ t ∷ [])
          (record s' { active_runs = Maps.put t run_id s'.active_runs })
  ]
]

-- `toSchedule`
abbrev pub to_schedule : SchedulerConfig → Supervisor → List Task → List String
to_schedule config s ready_tasks = task_ids (
    take (config.max_parallel_tasks - length s.active_runs) (
      filter (λ t. not (Sets.has t.id s.completed_tasks))
        (filter (λ t. not (Sets.has t.id s.manually_paused)) ready_tasks)))

-- What `tick` does once the promotions are made.
unfoldable pub schedule :
    SchedulerConfig
    → Environment
    → List TaskDependency
    → List String
    → Supervisor × List Task
    → Supervisor × Result ScheduleError (List String)
schedule config env dependencies active_tasks (s, effective) =
    elim (compute_ready_tasks effective dependencies active_tasks) [
      | err e ↦ (s, err e)
      | ok ready_tasks ↦ launch_each env (to_schedule config s ready_tasks) [] s
    ]

-- `tick`
unfoldable pub tick :
    SchedulerConfig
    → Environment
    → List Task
    → List TaskDependency
    → Supervisor
    → Supervisor × Result ScheduleError (List String)
tick config env tasks dependencies s =
    schedule config env dependencies (Maps.keys s.active_runs)
      (promote_dependents config env tasks dependencies s)
