-- ===== src/Runtime/Scheduler/Capacity.antt =====
-- A `tick` never runs more tasks at once than the configuration allows.
use dark_kitchen_orchestrato.Prelude.{
  ℕ, suc, ap, refl, not, filter, ◌+◌, ◌-◌, ◌≤◌, String, ◌≡◌, Bool, true, false, List, [], ◌∷◌, ◌++◌,
  Result, ok, err, arith, length, take, All, length-take-le,
}
use dark_kitchen_orchestrato.Prelude.Sets
use dark_kitchen_orchestrato.Prelude.Maps
use dark_kitchen_orchestrato.Prelude.Maps.{length-put, length-delete}
use dark_kitchen_orchestrato.Core.Domain.{Task, TaskDependency}
use dark_kitchen_orchestrato.Runtime.Scheduler.Launching.{
  started, Round, skipped, rejected, launched_as, Round-of,
}
use dark_kitchen_orchestrato.Runtime.Scheduler.{
  ScheduleError, SchedulerConfig, Supervisor, Op, recover_active, launch_elsewhere, perform,
  perform_all, Environment, promote_each, is_promotable, promote_dependents, launch_each, task_ids,
  to_schedule, compute_ready_tasks, schedule, tick,
}

abbrev pub running : Supervisor → ℕ
running s = length s.active_runs

-- All but `recoverActive`, which re-seeds a run after a restart, and the launches of another `tick`.
abbrev pub adds_no_run : Op → Bool
adds_no_run (recover_active t r) = false
adds_no_run (launch_elsewhere t r) = false
adds_no_run _ = true

-- While a tick awaits, nobody adds a run behind its back.
pub record AddsNoRun (env : Environment) : Type 0 where
  pub on_promote : (t : String) → All (λ o. adds_no_run o ≡ true) (env.promote t).0
  pub on_launch : (t : String) → All (λ o. adds_no_run o ≡ true) (env.launch t).0

running-perform :
    (o : Op) (s : Supervisor) → adds_no_run o ≡ true → running (perform o s) ≤ running s
unfolding perform
running-perform (Op.complete_task t) s h = length-delete t s.active_runs
running-perform (Op.fail_task t) s h = length-delete t s.active_runs
running-perform (Op.stop_task t) s h = length-delete t s.active_runs
running-perform (Op.retry_task t) s h = length-delete t s.active_runs
running-perform (Op.recover_paused t) s h = length-delete t s.active_runs
running-perform (recover_active t r) s h = absurd (cc)
running-perform (launch_elsewhere t r) s h = absurd (cc)
running-perform _ s h = omega arith

running-perform_all :
    (os : List Op) (s : Supervisor)
    → All (λ o. adds_no_run o ≡ true) os
    → running (perform_all os s) ≤ running s
unfolding perform_all
running-perform_all [] s h = omega arith
running-perform_all (o ∷ os) s h =
    omega (arith, running-perform o s h.0, running-perform_all os (perform o s) h.1)

length-task_ids : (ts : List Task) → length (task_ids ts) ≡ length ts
length-task_ids [] = refl
length-task_ids (t ∷ ts) = ap suc (length-task_ids ts)

length-to_schedule :
    (config : SchedulerConfig) (s : Supervisor) (found : List Task)
    → length (to_schedule config s found) ≤ config.max_parallel_tasks - running s
length-to_schedule config s found =
    let chosen =
      filter (λ t. not (Sets.has t.id s.completed_tasks))
        (filter (λ t. not (Sets.has t.id s.manually_paused)) found) in
    let k = config.max_parallel_tasks - running s in
    omega (arith, length-task_ids (take k chosen), length-take-le {0} k chosen)

module _ (env : Environment) (quiet : AddsNoRun env) where
  running-promote_each :
      (ts promoted : List String) (s : Supervisor)
      → running (promote_each env ts promoted s).0 ≤ running s
  unfolding promote_each
  running-promote_each [] promoted s = omega arith
  running-promote_each (t ∷ ts) promoted s = omega (
    arith,
    running-promote_each ts _ (perform_all (env.promote t).0 s),
    running-perform_all (env.promote t).0 s (quiet.on_promote t),
  )

  running-launch_each :
      (ts launched : List String) (s : Supervisor)
      → running (launch_each env ts launched s).0 ≤ running s + length ts
  unfolding launch_each
  running-launch_each [] launched s = omega arith
  running-launch_each (t ∷ ts) launched s =
      go (Round-of env t ts launched s) (running-launch_each ts launched s)
        (λ r. running-launch_each ts (launched ++ t ∷ []) (started env t r s))
    where
      go :
          Round env t ts launched s
          → running (launch_each env ts launched s).0 ≤ running s + length ts
          → ((r : String)
              → running (launch_each env ts (launched ++ t ∷ []) (started env t r s)).0
                ≤ running (started env t r s) + length ts)
          → running (launch_each env (t ∷ ts) launched s).0 ≤ running s + length (t ∷ ts)
      go (skipped a e) h k = rw e (omega arith)
      go (rejected e n) h k =
          rw e (omega (arith, running-perform_all (env.launch t).0 s (quiet.on_launch t)))
      go (launched_as r n l e) h k =
          let s' = perform_all (env.launch t).0 s in
          rw e (
            omega (
              arith,
              k r,
              length-put t r s'.active_runs,
              running-perform_all (env.launch t).0 s (quiet.on_launch t),
            ))

  running-promote_dependents :
      (config : SchedulerConfig) (tasks : List Task) (ds : List TaskDependency) (s : Supervisor)
      → running (promote_dependents config env tasks ds s).0 ≤ running s
  unfolding promote_dependents
  running-promote_dependents config tasks ds s =
      ground (arith, running-promote_each (task_ids (filter (is_promotable s ds tasks) tasks)) [] s)

  running-schedule :
      (config : SchedulerConfig) (ds : List TaskDependency) (active : List String) (s : Supervisor)
      (effective : List Task) (n : ℕ)
      → config.max_parallel_tasks ≤ n
      → running s ≤ n
      → running (schedule config env ds active (s, effective)).0 ≤ n
  unfolding schedule
  running-schedule config ds active s effective n m h =
      go (compute_ready_tasks effective ds active) refl
    where
      go :
          (r : Result ScheduleError (List Task))
          → compute_ready_tasks effective ds active ≡ r
          → running (schedule config env ds active (s, effective)).0 ≤ n
      go (err e) q = rw (q, schedule) h
      go (ok found) q =
          rw (q, schedule)
            (omega (
              arith,
              running-launch_each (to_schedule config s found) [] s,
              length-to_schedule config s found,
            ))

  -- Whatever the launcher and the tracker answer, if while it awaits nobody re-seeds a run and no
  -- other tick launches one, a tick that starts with at most `n` active runs ends so, for every `n`
  -- not below the configured maximum: also where the tick ends in an error.
  pub running-tick :
      (config : SchedulerConfig) (tasks : List Task) (ds : List TaskDependency) (s : Supervisor)
      (n : ℕ)
      → config.max_parallel_tasks ≤ n
      → running s ≤ n
      → running (tick config env tasks ds s).0 ≤ n
  unfolding tick
  running-tick config tasks ds s n m h =
      let (s', effective) = promote_dependents config env tasks ds s in
      running-schedule config ds (Maps.keys s.active_runs) s' effective n m
        (omega (arith, running-promote_dependents config tasks ds s))
