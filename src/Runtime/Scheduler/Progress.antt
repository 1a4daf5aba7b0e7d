-- ===== src/Runtime/Scheduler/Progress.antt =====
-- A `tick` that nobody disturbs fills the free slots, in the order of the tracker.
use mathlib.Core.Path.{fun_ext}
use mathlib.Core.List.{append-nil, append_assoc}
use dark_kitchen_orchestrato.Prelude.{
  ◌-◌, String, ◌≡◌, refl, sym, subst, ◌∙◌, ap, Bool, false, not, ◌&&◌, ◌||◌, some, List, [], ◌∷◌,
  ◌++◌, ok, arith, filter, length, any, if◌then◌else◌, ◌==◌, Bool-cases, inl, inr,
}
use dark_kitchen_orchestrato.Prelude.Sets
use dark_kitchen_orchestrato.Prelude.Sets.{Uniq, has-add, has_of_All, All-of_has}
use dark_kitchen_orchestrato.Prelude.Maps
use dark_kitchen_orchestrato.Prelude.Maps.{has-put, Fresh, Fresh-put}
use dark_kitchen_orchestrato.Core.Domain.{Task, TaskDependency, is_backlog}
use dark_kitchen_orchestrato.Core.Graph.Validity.{IsWellFormed}
use dark_kitchen_orchestrato.Runtime.Scheduler.{
  SchedulerConfig, Supervisor, Environment, perform_all, promote_each, promote_dependents,
  launch_each, checked_graph, to_schedule, schedule, tick, task_ids, is_promotable,
}
use dark_kitchen_orchestrato.Runtime.Scheduler.Launching.{schedule_found}
use dark_kitchen_orchestrato.Runtime.Scheduler.Readiness.{
  is_released, may_start, compute_ready_tasks_iff, unblocked-released,
}
use dark_kitchen_orchestrato.Runtime.Scheduler.Selection.{IsEligible, effective, scheduled}
use dark_kitchen_orchestrato.Runtime.Scheduler.Slots.{
  same_answer, first_of, ready_if, make_ready-ready_if, has-filter, to_schedule-first_of,
}

module _ (synced : String → Bool) (run_id : String → String) where
  -- Every launch succeeds, and nobody acts on the supervisor meanwhile.
  abbrev pub calm : Environment
  calm = record { promote = λ t. ([], synced t); launch = λ t. ([], some (run_id t)) }

  -- `activeRuns.set` for each task.
  abbrev pub start_all : List String → List (String × String) → List (String × String)
  start_all [] m = m
  start_all (t ∷ ts) m = start_all ts (Maps.put t (run_id t) m)

  launch_each-calm :
      (ts before : List String) (s : Supervisor)
      → Uniq ts
      → Fresh s.active_runs ts
      → launch_each calm ts before s
        ≡ (record s { active_runs = start_all ts s.active_runs }, ok (before ++ ts))
  unfolding launch_each perform_all
  launch_each-calm [] before s u f = rw append-nil
  launch_each-calm (t ∷ ts) before s u f =
      let s' = record s { active_runs = Maps.put t (run_id t) s.active_runs } in
      let ih =
        launch_each-calm ts (before ++ t ∷ []) s' u.1
          ((Fresh-put t (run_id t) s.active_runs ts).1 (u.0, f.1)) in
      let e = append_assoc before (t ∷ []) ts in ground (arith, f.0)

  promote_each-calm :
      (ts promoted : List String) (s : Supervisor) → (promote_each calm ts promoted s).0 ≡ s
  unfolding promote_each perform_all
  promote_each-calm [] promoted s = refl
  promote_each-calm (t ∷ ts) promoted s = promote_each-calm ts _ s

  promote_dependents-calm :
      (config : SchedulerConfig) (tasks : List Task) (ds : List TaskDependency) (s : Supervisor)
      → (promote_dependents config calm tasks ds s).0 ≡ s
  unfolding promote_dependents
  promote_dependents-calm config tasks ds s =
      ground (arith, promote_each-calm (task_ids (filter (is_promotable s ds tasks) tasks)) [] s)

  abbrev chosen : SchedulerConfig → List Task → List TaskDependency → Supervisor → List String
  chosen config tasks ds s =
      let shown = effective config calm tasks ds s in
      to_schedule config s (filter (may_start shown ds (Maps.keys s.active_runs)) shown)

  tick-chosen :
      (config : SchedulerConfig) (tasks : List Task) (ds : List TaskDependency) (s : Supervisor)
      → IsWellFormed (checked_graph (effective config calm tasks ds s) ds)
      → tick config calm tasks ds s ≡ (
        record s { active_runs = start_all (chosen config tasks ds s) s.active_runs },
        ok (chosen config tasks ds s),
      )
  unfolding tick
  tick-chosen config tasks ds s w =
      let shown = effective config calm tasks ds s in
      let active = Maps.keys s.active_runs in
      let found = filter (may_start shown ds active) shown in
      let computed = (compute_ready_tasks_iff shown ds active found).1 (w, refl) in
      let (u, a) = scheduled config calm tasks ds s found computed in
      let here = promote_dependents-calm config tasks ds s in
      let s₁ = (promote_dependents config calm tasks ds s).0 in
      let idle : Fresh s.active_runs (to_schedule config s₁ found) =
        All-of_has (λ t. Maps.has t s.active_runs ≡ false) (to_schedule config s₁ found)
          λ t m. (has_of_All (IsEligible tasks ds s s₁) (to_schedule config s₁ found) t a m).idle in
      ap (λ (x : Supervisor). schedule config calm ds active (x, shown)) here
      ∙ schedule_found config calm ds active s shown computed
      ∙ launch_each-calm (to_schedule config s found) [] s
          (subst (λ x. Uniq (to_schedule config x found)) here u)
          (subst (λ x. Fresh s.active_runs (to_schedule config x found)) here idle)

  -- Some task of this id waits in the backlog, neither running nor completed, with all that it waits
  -- for completed, and the tracker is told of its promotion.
  abbrev pub is_promoted : List Task → List TaskDependency → Supervisor → String → Bool
  is_promoted tasks ds s b =
      synced b
      && any
          (λ u.
            (is_backlog u.status
              && not (Maps.has u.id s.active_runs)
              && not (Sets.has u.id s.completed_tasks)
              && is_released tasks ds u.id)
            && (u.id == b))
          tasks

  -- The tasks as the tick sees them.
  abbrev pub seen : SchedulerConfig → List Task → List TaskDependency → Supervisor → List Task
  seen config tasks ds s =
      if config.auto_promote_dependents then ready_if (is_promoted tasks ds s) tasks else tasks

  -- The first tasks that may start and are neither paused nor completed, one for each free slot.
  abbrev pub due : SchedulerConfig → List Task → List TaskDependency → Supervisor → List String
  due config tasks ds s =
      let all_tasks = seen config tasks ds s in
      first_of (config.max_parallel_tasks - length s.active_runs)
        (λ t.
          may_start all_tasks ds (Maps.keys s.active_runs) t
          && not (Sets.has t.id s.manually_paused)
          && not (Sets.has t.id s.completed_tasks))
        all_tasks

  has-promoted :
      (ts promoted : List String) (s : Supervisor) (b : String)
      → Sets.has b (promote_each calm ts promoted s).1
        ≡ (Sets.has b promoted || (synced b && Sets.has b ts))
  unfolding promote_each perform_all Sets.has
  has-promoted [] promoted s b = ground arith
  has-promoted (t ∷ ts) promoted s b = ground (
    arith,
    has-promoted ts (Sets.add t promoted) s b,
    has-promoted ts promoted s b,
    has-add b t promoted,
    same_answer synced t b,
  )

  effective-seen :
      (config : SchedulerConfig) (tasks : List Task) (ds : List TaskDependency) (s : Supervisor)
      → effective config calm tasks ds s ≡ seen config tasks ds s
  unfolding promote_dependents Sets.has
  effective-seen config tasks ds s = elim (Bool-cases config.auto_promote_dependents) [
    | inl e ↦
        let promotable = task_ids (filter (is_promotable s ds tasks) tasks) in
        let promoted = (promote_each calm promotable [] s).1 in
        rw e (
          make_ready-ready_if promoted tasks
          ∙ ap (λ (p : String → Bool). ready_if p tasks)
              (fun_ext λ b.
                has-promoted promotable [] s b
                ∙ ap (λ x. synced b && x)
                    (has-filter (is_promotable s ds tasks) tasks b
                      ∙ ap
                          (λ (q : String → Bool).
                            any
                              (λ u.
                                (is_backlog u.status
                                  && not (Maps.has u.id s.active_runs)
                                  && not (Sets.has u.id s.completed_tasks)
                                  && q u.id)
                                && (u.id == b))
                              tasks)
                          (fun_ext (unblocked-released tasks ds)))))
    | inr e ↦ rw e refl
  ]

  -- If every launch succeeds and nobody acts on the supervisor meanwhile, a tick over a graph that
  -- is well formed launches exactly the first tasks that may start and are neither paused nor
  -- completed, as many as there are free slots, and records a run for each; nothing else of the
  -- supervisor changes. A task may start if it is ready or promoted from the backlog, it is not
  -- running and all that blocks it is completed; it is promoted if that is configured, the tracker
  -- takes it, it is neither running nor completed and all that blocks it is completed.
  pub tick-calm :
      (config : SchedulerConfig) (tasks : List Task) (ds : List TaskDependency) (s : Supervisor)
      → IsWellFormed (checked_graph (seen config tasks ds s) ds)
      → tick config calm tasks ds s ≡ (
        record s { active_runs = start_all (due config tasks ds s) s.active_runs },
        ok (due config tasks ds s),
      )
  tick-calm config tasks ds s w =
      let e = effective-seen config tasks ds s in
      let t =
        tick-chosen config tasks ds s (subst (λ x. IsWellFormed (checked_graph x ds)) (sym e) w) in
      t
      ∙ ap (λ (x : List String). (record s { active_runs = start_all x s.active_runs }, ok x))
          (to_schedule-first_of config s (effective config calm tasks ds s) ds
            ∙ ap
                (λ (x : List Task).
                  first_of (config.max_parallel_tasks - length s.active_runs)
                    (λ t.
                      may_start x ds (Maps.keys s.active_runs) t
                      && not (Sets.has t.id s.manually_paused)
                      && not (Sets.has t.id s.completed_tasks))
                    x)
                e)
