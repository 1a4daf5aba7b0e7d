-- ===== src/Runtime/Scheduler/Selection.antt =====
-- What a `tick` launches: only tasks that are offered, idle and released, each of them once.
use dark_kitchen_orchestrato.Prelude.{
  ◌-◌, String, ◌≡◌, refl, Bool, true, false, not, List, [], Result, ok, err, arith, length, take,
  filter, All, All-take, All-map₂, All-filter, filter_holds, Bool-cases, inl, inr,
}
use dark_kitchen_orchestrato.Prelude.Sets
use dark_kitchen_orchestrato.Prelude.Sets.{has-add, Uniq, has_of_All, All-of_has}
use dark_kitchen_orchestrato.Prelude.Maps
use dark_kitchen_orchestrato.Prelude.Maps.{has-keys}
use dark_kitchen_orchestrato.Core.Domain.{Task, TaskDependency, is_ready}
use dark_kitchen_orchestrato.Core.Graph.Scanning.{blockers}
use dark_kitchen_orchestrato.Runtime.Scheduler.{
  ScheduleError, SchedulerConfig, Supervisor, Environment, promote_each, promote_dependents,
  task_ids, to_schedule, compute_ready_tasks, tick, is_promotable,
}
use dark_kitchen_orchestrato.Runtime.Scheduler.Launching.{schedule_found, schedule_failed}
use dark_kitchen_orchestrato.Runtime.Scheduler.Readiness.{
  is_done, is_released, may_start, compute_ready_tasks_iff,
}
use dark_kitchen_orchestrato.Runtime.Scheduler.Offers.{
  is_offered, launch_each-Extends, All-task_ids, has-promote_each, is_done-make_ready, all_mono,
  offered_of_backlog, offered-make_ready, offered-plain, Uniq-filter, Uniq-take,
}

-- What a task must satisfy to be launched by a tick from `s`, with the pauses and completions
-- that stand in `s₁` once the promotions are made.
pub record IsEligible (tasks : List Task) (ds : List TaskDependency) (s s₁ : Supervisor)
    (t : String) : Type 0 where
  pub offered : is_offered tasks t ≡ true
  pub released : is_released tasks ds t ≡ true
  pub idle : Maps.has t s.active_runs ≡ false
  pub not_paused : Sets.has t s₁.manually_paused ≡ false
  pub not_completed : Sets.has t s₁.completed_tasks ≡ false

module _ (config : SchedulerConfig) (env : Environment) (tasks : List Task)
    (ds : List TaskDependency) (s : Supervisor) where
  abbrev pub promotion : Supervisor × List Task
  promotion = promote_dependents config env tasks ds s

  abbrev pub s₁ : Supervisor
  s₁ = promotion.0

  abbrev pub effective : List Task
  effective = promotion.1

  abbrev promotable : List String
  promotable = task_ids (filter (is_promotable s ds tasks) tasks)

  promoted-offered :
      (b : String)
      → Sets.has b (promote_each env promotable [] s).1 ≡ true
      → is_offered tasks b ≡ true
  unfolding Sets.has
  promoted-offered b h =
      offered_of_backlog (is_promotable s ds tasks) tasks b (λ u k. ground arith)
        (has-promote_each env promotable [] s b h)

  effective-offered : All (λ u. is_ready u.status ≡ true → is_offered tasks u.id ≡ true) effective
  unfolding promote_dependents
  effective-offered = elim (Bool-cases config.auto_promote_dependents) [
    | inl e ↦ rw e (
        offered-make_ready (promote_each env promotable [] s).1 tasks tasks promoted-offered
          (λ b h. h))
    | inr e ↦ rw e (offered-plain tasks tasks (λ b h. h))
  ]

  effective-done : (b : String) → is_done effective b ≡ true → is_done tasks b ≡ true
  unfolding promote_dependents
  effective-done b h = elim (Bool-cases config.auto_promote_dependents) [
    | inl e ↦ is_done-make_ready (promote_each env promotable [] s).1 tasks b (rw e at h)
    | inr e ↦ rw e at h
  ]

  -- The active tasks that the tick starts from.
  abbrev pub active : List String
  active = Maps.keys s.active_runs

  abbrev pub start : Task → Bool
  start = may_start effective ds active

  abbrev pub resumed : Task → Bool
  resumed u = not (Sets.has u.id s₁.manually_paused)

  abbrev pub fresh : Task → Bool
  fresh u = not (Sets.has u.id s₁.completed_tasks)

  abbrev IsOpen : Task → Type 0
  IsOpen u =
      (is_offered tasks u.id ≡ true)
      × (is_released tasks ds u.id ≡ true)
      × (Maps.has u.id s.active_runs ≡ false)

  found-IsOpen : All IsOpen (filter start effective)
  found-IsOpen =
      All-map₂ (λ u. is_ready u.status ≡ true → is_offered tasks u.id ≡ true) (λ u. start u ≡ true)
        IsOpen
        (λ u a b. (
          a (ground arith),
          all_mono (is_done effective) (is_done tasks) (blockers ds u.id) effective-done
              (ground arith),
          ground (arith, has-keys u.id s.active_runs),
        ))
        (filter start effective)
        (All-filter (λ u. is_ready u.status ≡ true → is_offered tasks u.id ≡ true) start effective
          effective-offered)
        (filter_holds start effective)

  abbrev pub chosen : List Task
  chosen = filter fresh (filter resumed (filter start effective))

  chosen-IsEligible : All (λ u. IsEligible tasks ds s s₁ u.id) chosen
  chosen-IsEligible =
      let R = λ (u : Task). IsOpen u × (resumed u ≡ true) in
      let E = λ (u : Task). IsEligible tasks ds s s₁ u.id in
      let open_ones = filter start effective in
      All-map₂ R (λ u. fresh u ≡ true) E
        (λ u a b. record {
          offered = a.0.0;
          released = a.0.1;
          idle = a.0.2;
          not_paused = ground arith;
          not_completed = ground arith;
        })
        chosen
        (All-filter R fresh (filter resumed open_ones) (
          All-map₂ IsOpen (λ u. resumed u ≡ true) R (λ u a b. (a, b)) (filter resumed open_ones)
            (All-filter IsOpen resumed open_ones found-IsOpen) (filter_holds resumed open_ones)))
        (filter_holds fresh (filter resumed open_ones))

  pub scheduled :
      (found : List Task)
      → compute_ready_tasks effective ds active ≡ ok found
      → Uniq (to_schedule config s₁ found)
        × All (IsEligible tasks ds s s₁) (to_schedule config s₁ found)
  scheduled found h =
      let (w, q) = (compute_ready_tasks_iff effective ds active found).0 h in
      let k = config.max_parallel_tasks - length s₁.active_runs in
      rw q (
        Uniq-take k chosen (
            Uniq-filter fresh (filter resumed (filter start effective)) (
              Uniq-filter resumed (filter start effective)
                (Uniq-filter start effective w.unique_tasks))),
        All-task_ids (IsEligible tasks ds s s₁) (take k chosen)
            (All-take (λ u. IsEligible tasks ds s s₁ u.id) k chosen chosen-IsEligible),
      )

  -- Every task that a tick launches is ready or in the backlog, was not active when the tick
  -- began, is neither paused nor completed once the promotions are made, and waits only for tasks
  -- that the tracker shows as completed. No task is launched twice.
  pub launched-IsEligible :
      (launched : List String)
      → (tick config env tasks ds s).1 ≡ ok launched
      → Uniq launched × All (IsEligible tasks ds s s₁) launched
  unfolding tick
  launched-IsEligible launched h = go (compute_ready_tasks effective ds active) refl
    where
      go :
          (r : Result ScheduleError (List Task))
          → compute_ready_tasks effective ds active ≡ r
          → Uniq launched × All (IsEligible tasks ds s s₁) launched
      go (err e) q = absurd (cc (rw (schedule_failed config env ds active s₁ effective q) at h))
      go (ok found) q =
          let (rest, p, u, k) =
            launch_each-Extends env (to_schedule config s₁ found) [] s₁ (scheduled found q).0
              (rw (schedule_found config env ds active s₁ effective q) at h) in
          rw p (
            u,
            All-of_has (IsEligible tasks ds s s₁) rest (λ b m.
                has_of_All (IsEligible tasks ds s s₁) (to_schedule config s₁ found) b
                  (scheduled found q).1 (k b m)),
          )
