-- ===== src/Runtime/Scheduler/Slots.antt =====
-- The first tasks for the free slots, described without the filters of scheduler.ts.
use dark_kitchen_orchestrato.Prelude.{
  ℕ, zero, suc, ◌-◌, String, ◌≡◌, refl, ap, Bool, true, not, ◌&&◌, List, [], ◌∷◌, arith, filter,
  take, length, any, if◌then◌else◌, ◌==◌, eq_iff,
}
use dark_kitchen_orchestrato.Prelude.Sets
use dark_kitchen_orchestrato.Prelude.Sets.{Uniq, has-add, has_of_All, All-of_has}
use dark_kitchen_orchestrato.Prelude.Maps
use dark_kitchen_orchestrato.Prelude.Maps.{has-put, Fresh, Fresh-put}
use dark_kitchen_orchestrato.Core.Domain.{Task, TaskDependency, ready}
use dark_kitchen_orchestrato.Runtime.Scheduler.{
  SchedulerConfig, Supervisor, make_ready, to_schedule, task_ids,
}
use dark_kitchen_orchestrato.Runtime.Scheduler.Readiness.{may_start}

-- The ids of the first tasks that pass a test, as many as there are slots.
pub first_of : ℕ → (Task → Bool) → List Task → List String
first_of zero p ts = []
first_of (suc n) p [] = []
first_of (suc n) p (t ∷ ts) =
    let taken = first_of n p ts in
    let passed_over = first_of (suc n) p ts in if p t then t.id ∷ taken else passed_over

-- The tasks of some ids read as ready.
abbrev pub ready_if : (String → Bool) → List Task → List Task
ready_if p [] = []
ready_if p (t ∷ ts) = (if p t.id then record t { status = ready } else t) ∷ ready_if p ts

pub make_ready-ready_if :
    (promoted : List String) (ts : List Task)
    → make_ready promoted ts ≡ ready_if (λ b. Sets.has b promoted) ts
make_ready-ready_if promoted [] = refl
make_ready-ready_if promoted (t ∷ ts) =
    ap (λ rest. (if Sets.has t.id promoted then record t { status = ready } else t) ∷ rest)
      (make_ready-ready_if promoted ts)

pub has-filter :
    (p : Task → Bool) (ts : List Task) (b : String)
    → Sets.has b (task_ids (filter p ts)) ≡ any (λ u. p u && (u.id == b)) ts
unfolding Sets.has
has-filter p [] b = refl
has-filter p (t ∷ ts) b = ground (arith, has-filter p ts b)

pub same_answer : (p : String → Bool) (t b : String) → (t == b) ≡ true → p t ≡ p b
same_answer p t b h = ap p ((eq_iff t b).0 h)

take-first_of :
    (n : ℕ) (f g h : Task → Bool) (ts : List Task)
    → task_ids (take n (filter f (filter g (filter h ts)))) ≡ first_of n (λ t. h t && g t && f t) ts
unfolding first_of
take-first_of zero f g h ts = refl
take-first_of (suc n) f g h [] = refl
take-first_of (suc n) f g h (t ∷ ts) =
    ground (arith, take-first_of n f g h ts, take-first_of (suc n) f g h ts)

pub to_schedule-first_of :
    (config : SchedulerConfig) (s : Supervisor) (ts : List Task) (ds : List TaskDependency)
    → to_schedule config s (filter (may_start ts ds (Maps.keys s.active_runs)) ts)
      ≡ first_of
          (config.max_parallel_tasks - length s.active_runs)
          (λ t.
            may_start ts ds (Maps.keys s.active_runs) t
            && not (Sets.has t.id s.manually_paused)
            && not (Sets.has t.id s.completed_tasks))
          ts
to_schedule-first_of config s ts ds =
    take-first_of (config.max_parallel_tasks - length s.active_runs)
      (λ t. not (Sets.has t.id s.completed_tasks)) (λ t. not (Sets.has t.id s.manually_paused))
      (may_start ts ds (Maps.keys s.active_runs)) ts
