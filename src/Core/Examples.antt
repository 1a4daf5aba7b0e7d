-- ===== src/Core/Examples.antt =====
-- Small task graphs, runs and worktrees on which the operations of packages/core/src/domain.ts are
-- tried out.
use dark_kitchen_orchestrato.Prelude.{
  ℕ, ◌<◌, String, ◌≡◌, ◌≢◌, refl, Option, none, some, false, List, [], ◌∷◌, ok, err, ◌==◌, arith,
  ◌↔◌, Bool-cases, inl, inr, test_of_ne, sym, subst, if◌then◌else◌, ◌⊎◌, eq_iff,
}
use dark_kitchen_orchestrato.Prelude.Sets
use dark_kitchen_orchestrato.Prelude.Maps
use dark_kitchen_orchestrato.Core.Ids.{DomainError, cyclic}
use dark_kitchen_orchestrato.Core.Domain.{
  TaskDependency, blocks, TaskGraph, Workspace, primary_worktree, active,
}
use dark_kitchen_orchestrato.Core.Graph.{
  validate_task_graph, scan, scan_one, find_cycle, visit_each, visit, edges_of, add_edge,
}
use dark_kitchen_orchestrato.Core.Graph.Validity.{IsWellFormed, validate_task_graph_iff}
use dark_kitchen_orchestrato.Core.Runs.{
  RuntimeState, AgentSessionState, Run, AgentSession, can_transition_run, is_terminal_runtime_state,
  transition_run, transition_agent_session,
}
use dark_kitchen_orchestrato.Core.Runs.Life.{
  advance_run, IsStamped, advance_run-IsStamped, view_run, view_session, session_simulates_run,
}
use dark_kitchen_orchestrato.Core.Worktrees.{
  PathApi, canonicalize_workspace_path, validate_primary_worktree_invariant,
}
use dark_kitchen_orchestrato.Core.Worktrees.Canonical.{Resolves, canonical-Resolves}
use dark_kitchen_orchestrato.Core.Worktrees.Ownership.{
  Exclusive, validate_primary_worktree_invariant_iff,
}

abbrev blocks_on : String → String → String → TaskDependency
blocks_on id t b = record { id = id; task_id = t; depends_on_task_id = b; kind = blocks }

abbrev graph_of : List TaskDependency → TaskGraph
graph_of ds = record {
  id = "graph";
  project_id = "project";
  task_ids = "plan" ∷ "build" ∷ "ship" ∷ [];
  dependencies = ds;
  created_at = "now";
  updated_at = "now";
}

abbrev chain : TaskGraph
chain = graph_of (blocks_on "d1" "build" "plan" ∷ blocks_on "d2" "ship" "build" ∷ [])

abbrev ring : TaskGraph
ring = graph_of (blocks_on "d1" "build" "plan" ∷ blocks_on "d2" "plan" "build" ∷ [])

chain_accepted : validate_task_graph chain ≡ ok tt
unfolding validate_task_graph Sets.of_list scan scan_one find_cycle visit_each visit edges_of
    Maps.get add_edge Maps.put Sets.delete
chain_accepted = refl

ring_refused : validate_task_graph ring ≡ err cyclic
unfolding validate_task_graph Sets.of_list scan scan_one find_cycle visit_each visit edges_of
    Maps.get add_edge Maps.put
ring_refused = refl

validate_task_graph_iff_example : (validate_task_graph chain ≡ ok tt) ↔ IsWellFormed chain
validate_task_graph_iff_example = validate_task_graph_iff chain

abbrev new_run : Run
new_run = record {
  id = "run";
  project_id = "project";
  task_id = "build";
  workflow_run_id = none;
  state = RuntimeState.queued;
  execution_node_ids = [];
  workspace_id = none;
  created_at = "t0";
  updated_at = "t0";
  completed_at = none;
}

abbrev whole_life : List (RuntimeState × String)
whole_life =
    (RuntimeState.starting, "t1")
    ∷ (RuntimeState.running, "t2")
    ∷ (RuntimeState.completed, "t3")
    ∷ []

abbrev ended_run : Run
ended_run = record new_run {
  state = RuntimeState.completed;
  updated_at = "t3";
  completed_at = some "t3";
}

lived : advance_run new_run whole_life ≡ ok ended_run
unfolding transition_run can_transition_run
lived = refl

advance_run-IsStamped_example :
    IsStamped ended_run
    × ((is_terminal_runtime_state ended_run.state ≡ false)
        ⊎ (can_transition_run ended_run.state RuntimeState.running ≡ false))
advance_run-IsStamped_example =
    advance_run-IsStamped new_run whole_life RuntimeState.running "t4" refl lived

abbrev new_session : AgentSession
new_session = record {
  id = "session";
  run_id = "run";
  task_id = "build";
  execution_node_id = "node";
  workspace_id = "workspace";
  state = AgentSessionState.starting;
  created_at = "t0";
  updated_at = "t1";
  completed_at = none;
}

abbrev starting_run : Run
starting_run = record new_run { state = RuntimeState.starting; updated_at = "t1" }

session_simulates_run_example :
    view_session (transition_agent_session new_session AgentSessionState.failed "t2")
    ≡ view_run (transition_run starting_run RuntimeState.failed "t2")
session_simulates_run_example =
    session_simulates_run new_session starting_run AgentSessionState.failed "t2" refl

-- A disk with the directory `/work` alone, on which `/link` is a symbolic link to it.
abbrev real_path_of : String → Option String
real_path_of p = if p == "/work" then some "/work" else if p == "/link" then some "/work" else none

abbrev dirname_of : String → String
dirname_of p = if p == "/work/a" then "/work" else if p == "/link/a" then "/link" else "/"

abbrev depth_of : String → ℕ
depth_of p = if p == "/work/a" then 2 else if p == "/link/a" then 2 else if p == "/" then 0 else 1

abbrev resolve_of : String → List String → String
resolve_of p [] = p
resolve_of p (s ∷ ss) = if s == "a" then "/work/a" else p

depth-dirname_of : (p : String) → dirname_of p ≢ p → depth_of (dirname_of p) < depth_of p
depth-dirname_of p n = elim (Bool-cases (p == "/work/a")) [
  | inl e ↦
      subst (λ x. depth_of (dirname_of x) < depth_of x) (sym ((eq_iff p "/work/a").0 e))
        (omega arith)
  | inr e ↦ elim (Bool-cases (p == "/link/a")) [
    | inl f ↦
        subst (λ x. depth_of (dirname_of x) < depth_of x) (sym ((eq_iff p "/link/a").0 f))
          (omega arith)
    | inr f ↦
        let m : "/" ≢ p = rw (e, f) at n in
        let g : (p == "/") ≡ false = test_of_ne p "/" (λ q. m (sym q)) in rw (e, f, g) (omega arith)
  ]
]

abbrev disk : PathApi
disk = record {
  resolve = resolve_of;
  real_path = real_path_of;
  dirname = dirname_of;
  basename = λ p. "a";
  depth = depth_of;
  depth-dirname = depth-dirname_of;
}

linked : canonicalize_workspace_path disk "/link/a" ≡ "/work/a"
unfolding canonicalize_workspace_path
linked = refl

canonical-Resolves_example :
    Resolves disk "/link/a" (canonicalize_workspace_path disk "/link/a") "/link/a" []
canonical-Resolves_example = canonical-Resolves disk "/link/a"

abbrev worktree_at : String → String → Workspace
worktree_at t p = record {
  id = t;
  project_id = "project";
  task_id = t;
  repository_id = "repository";
  kind = primary_worktree;
  state = active;
  path = p;
  revision = none;
  created_at = "now";
  updated_at = "now";
}

validate_primary_worktree_invariant_iff_example :
    (validate_primary_worktree_invariant disk ("plan" ∷ []) (worktree_at "plan" "/work/a" ∷ [])
      ≡ ok tt)
    ↔ Exclusive disk ("plan" ∷ []) (worktree_at "plan" "/work/a" ∷ [])
validate_primary_worktree_invariant_iff_example =
    validate_primary_worktree_invariant_iff disk ("plan" ∷ []) (worktree_at "plan" "/work/a" ∷ [])

sharing_refused :
    validate_primary_worktree_invariant disk
      ("plan" ∷ "build" ∷ [])
      (worktree_at "plan" "/work/a" ∷ worktree_at "build" "/link/a" ∷ [])
    ≡ err (DomainError.shared_path "/link/a")
unfolding validate_primary_worktree_invariant canonicalize_workspace_path Sets.of_list Maps.get
    Maps.put
sharing_refused = refl
