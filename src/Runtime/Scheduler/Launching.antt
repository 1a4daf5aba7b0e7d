-- ===== src/Runtime/Scheduler/Launching.antt =====
-- The three ways of a round of the launching loop, and the case split on them.
use dark_kitchen_orchestrato.Prelude.{
  String, ◌≡◌, true, false, none, some, Option-cases, Bool-cases, inl, inr, List, [], ◌∷◌, ◌++◌, ok,
  err, arith,
}
use dark_kitchen_orchestrato.Prelude.Maps
use dark_kitchen_orchestrato.Core.Domain.{Task, TaskDependency}
use dark_kitchen_orchestrato.Runtime.Scheduler.{
  Supervisor, perform_all, Environment, launch_each, launch_failed, ScheduleError, SchedulerConfig,
  schedule, compute_ready_tasks, to_schedule,
}

-- The supervisor once the run of `t` is recorded.
abbrev pub started : Environment → String → String → Supervisor → Supervisor
started env t run_id s =
    let s' = perform_all (env.launch t).0 s in
    record s' { active_runs = Maps.put t run_id s'.active_runs }

pub data Round (env : Environment) (t : String) (ts launched : List String) (s : Supervisor)
    : Type 0 where
  skipped :
      Maps.has t s.active_runs ≡ true
      → launch_each env (t ∷ ts) launched s ≡ launch_each env ts launched s
      → Round env t ts launched s
  rejected :
      launch_each env (t ∷ ts) launched s ≡ (perform_all (env.launch t).0 s, err launch_failed)
      → (env.launch t).1 ≡ none
      → Round env t ts launched s
  launched_as :
      (run_id : String)
      → Maps.has t s.active_runs ≡ false
      → (env.launch t).1 ≡ some run_id
      → launch_each env (t ∷ ts) launched s
        ≡ launch_each env ts (launched ++ t ∷ []) (started env t run_id s)
      → Round env t ts launched s

pub Round-of :
    (env : Environment) (t : String) (ts launched : List String) (s : Supervisor)
    → Round env t ts launched s
unfolding launch_each
Round-of env t ts launched s = elim (Bool-cases (Maps.has t s.active_runs)) [
  | inl a ↦ skipped a (ground arith)
  | inr n ↦ elim (Option-cases (env.launch t).1) [
    | inl e ↦ rejected (ground arith) e
    | inr (r, e) ↦ launched_as r n e (ground arith)
  ]
]

module _ (config : SchedulerConfig) (env : Environment) (ds : List TaskDependency)
    (active : List String) (s : Supervisor) (effective : List Task) where
  pub schedule_found :
      {found : List Task}
      → compute_ready_tasks effective ds active ≡ ok found
      → schedule config env ds active (s, effective)
        ≡ launch_each env (to_schedule config s found) [] s
  unfolding schedule
  schedule_found h = ground arith

  pub schedule_failed :
      {e : ScheduleError}
      → compute_ready_tasks effective ds active ≡ err e
      → schedule config env ds active (s, effective) ≡ (s, err e)
  unfolding schedule
  schedule_failed h = ground arith
