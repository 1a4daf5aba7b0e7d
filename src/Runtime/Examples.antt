-- ===== src/Runtime/Examples.antt =====
-- A small plan on which the scheduler is tried out.
use dark_kitchen_orchestrato.Prelude.{
  ◌≤◌, String, ◌≡◌, refl, none, some, Bool, true, List, [], ◌∷◌, ok, arith, ◌↔◌, All, filter,
}
use dark_kitchen_orchestrato.Prelude.Sets
use dark_kitchen_orchestrato.Prelude.Sets.{Uniq}
use dark_kitchen_orchestrato.Prelude.Maps
use dark_kitchen_orchestrato.Core.Domain.{Task, TaskStatus, TaskDependency, blocks}
use dark_kitchen_orchestrato.Core.Graph.{
  validate_task_graph, scan, scan_one, find_cycle, visit_each, visit, edges_of, add_edge,
}
use dark_kitchen_orchestrato.Core.Graph.Validity.{IsWellFormed, validate_task_graph_iff}
use dark_kitchen_orchestrato.Runtime.Scheduler.{
  checked_graph, compute_ready_tasks, SchedulerConfig, Supervisor, Op, Environment, promote_each,
  promote_dependents, launch_each, perform, perform_all, blocked_by, schedule, tick,
}
use dark_kitchen_orchestrato.Runtime.Scheduler.Readiness.{may_start, compute_ready_tasks_iff}
use dark_kitchen_orchestrato.Runtime.Scheduler.Capacity.{AddsNoRun, running, running-tick}
use dark_kitchen_orchestrato.Runtime.Scheduler.Selection.{IsEligible, s₁, launched-IsEligible}
use dark_kitchen_orchestrato.Runtime.Scheduler.Progress.{calm, start_all, seen, due, tick-calm}

abbrev task_of : String → TaskStatus → Task
task_of id status = record {
  id = id;
  project_id = "project";
  title = id;
  description = none;
  labels = none;
  status = status;
  tracker_reference = none;
  created_at = "now";
  updated_at = "now";
}

abbrev plan : List Task
plan =
    task_of "design" TaskStatus.completed
    ∷ task_of "build" TaskStatus.backlog
    ∷ task_of "docs" TaskStatus.ready
    ∷ task_of "ship" TaskStatus.backlog
    ∷ []

abbrev blocks_on : String → String → String → TaskDependency
blocks_on id t b = record { id = id; task_id = t; depends_on_task_id = b; kind = blocks }

abbrev order : List TaskDependency
order = blocks_on "d1" "build" "design" ∷ blocks_on "d2" "ship" "build" ∷ []

abbrev config : SchedulerConfig
config = record { max_parallel_tasks = 2; auto_promote_dependents = true }

abbrev idle : Supervisor
idle = record { active_runs = []; completed_tasks = []; manually_paused = [] }

-- Other code pauses `docs` while `build` is promoted.
abbrev env : Environment
env = record { promote = λ t. (Op.pause_task "docs" ∷ [], true); launch = λ t. ([], some "run") }

compute_ready_tasks_iff_example :
    (compute_ready_tasks plan order [] ≡ ok (task_of "docs" TaskStatus.ready ∷ [])) ↔ (
      IsWellFormed (checked_graph plan order)
      × (task_of "docs" TaskStatus.ready ∷ [] ≡ filter (may_start plan order []) plan))
compute_ready_tasks_iff_example =
    compute_ready_tasks_iff plan order [] (task_of "docs" TaskStatus.ready ∷ [])

launched_build : (tick config env plan order idle).1 ≡ ok ("build" ∷ [])
unfolding tick schedule promote_dependents promote_each launch_each perform perform_all blocked_by
    compute_ready_tasks validate_task_graph Sets.of_list scan scan_one find_cycle visit_each visit
    edges_of Maps.get add_edge Maps.put Sets.delete
launched_build = refl

launched-IsEligible_example :
    Uniq ("build" ∷ [])
    × All (IsEligible plan order idle (s₁ config env plan order idle)) ("build" ∷ [])
launched-IsEligible_example =
    launched-IsEligible config env plan order idle ("build" ∷ []) launched_build

env-AddsNoRun : AddsNoRun env
env-AddsNoRun = record { on_promote = λ t. (refl, tt); on_launch = λ t. tt }

running-tick_example : running (tick config env plan order idle).0 ≤ 2
running-tick_example =
    running-tick env env-AddsNoRun config plan order idle 2 (omega arith) (omega arith)

abbrev synced : String → Bool
synced t = true

abbrev run_id : String → String
run_id t = t

accepted :
    validate_task_graph (checked_graph (seen synced run_id config plan order idle) order) ≡ ok tt
unfolding promote_dependents promote_each perform_all blocked_by validate_task_graph Sets.of_list
    scan scan_one find_cycle visit_each visit edges_of Maps.get add_edge Maps.put Sets.delete
accepted = refl

effective-IsWellFormed :
    IsWellFormed (checked_graph (seen synced run_id config plan order idle) order)
effective-IsWellFormed = (validate_task_graph_iff _).0 accepted

tick-calm_example : tick config (calm synced run_id) plan order idle ≡ (
  record idle {
    active_runs = start_all synced run_id (due synced run_id config plan order idle) [];
  },
  ok (due synced run_id config plan order idle),
)
tick-calm_example = tick-calm synced run_id config plan order idle effective-IsWellFormed
