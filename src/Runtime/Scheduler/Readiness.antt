-- ===== src/Runtime/Scheduler/Readiness.antt =====
-- `computeReadyTasks` against a description that uses no index.
use mathlib.Core.Path.{fun_ext}
use dark_kitchen_orchestrato.Prelude.{
  String, ◌≡◌, refl, sym, ◌∙◌, ap, ◌↔◌, Bool, true, not, ◌&&◌, ◌||◌, or_else, List, [], ◌∷◌, ok,
  ◌>>=◌, arith, ◌==◌, eq_iff, filter, all, any, All, Bool_ext, Bool-cases, inl, inr,
}
use dark_kitchen_orchestrato.Prelude.Sets
use dark_kitchen_orchestrato.Prelude.Sets.{has-add, has-of_list, has_of_All, All-of_has}
use dark_kitchen_orchestrato.Prelude.Maps
use dark_kitchen_orchestrato.Prelude.Maps.{get-put}
use dark_kitchen_orchestrato.Core.Domain.{Task, is_completed, is_ready, is_blocks, TaskDependency}
use dark_kitchen_orchestrato.Core.Graph.Scanning.{blockers}
use dark_kitchen_orchestrato.Core.Graph.Validity.{IsWellFormed, validate_task_graph_iff}
use dark_kitchen_orchestrato.Runtime.Scheduler.{
  checked_graph, check_graph, task_ids, completed_ids, blocked_by, is_unblocked,
  compute_ready_tasks,
}

-- Some task of this id is completed.
abbrev pub is_done : List Task → String → Bool
is_done tasks b = any (λ t. is_completed t.status && (t.id == b)) tasks

-- All that a task waits for is completed.
abbrev pub is_released : List Task → List TaskDependency → String → Bool
is_released tasks dependencies t = all (is_done tasks) (blockers dependencies t)

has-blocked_by :
    (ds : List TaskDependency) (m : List (String × List String)) (t b : String)
    → Sets.has b (or_else (Maps.get t (blocked_by ds m)) [])
      ≡ (Sets.has b (or_else (Maps.get t m) []) || Sets.has b (blockers ds t))
unfolding blocked_by Sets.has
has-blocked_by [] m t b = ground arith
has-blocked_by (d ∷ ds) m t b = elim (Bool-cases (is_blocks d.kind)) [
  | inl e ↦
      let old = or_else (Maps.get d.task_id m) [] in
      let m' = Maps.put d.task_id (Sets.add d.depends_on_task_id old) m in
      rw e (
        ground (
          arith,
          has-blocked_by ds m' t b,
          get-put d.task_id t (Sets.add d.depends_on_task_id old) m,
          eq_iff d.task_id t,
          has-add b d.depends_on_task_id old,
        ))
  | inr e ↦ rw e (has-blocked_by ds m t b)
]

has-completed :
    (tasks : List Task) (b : String)
    → Sets.has b (task_ids (filter (λ t. is_completed t.status) tasks)) ≡ is_done tasks b
unfolding Sets.has
has-completed [] b = refl
has-completed (t ∷ ts) b = ground (arith, has-completed ts b)

has-completed_ids :
    (tasks : List Task) (b : String) → Sets.has b (completed_ids tasks) ≡ is_done tasks b
has-completed_ids tasks b =
    has-of_list b (task_ids (filter (λ t. is_completed t.status) tasks)) ∙ has-completed tasks b

all_iff : (p : String → Bool) (xs : List String) → (all p xs ≡ true) ↔ All (λ x. p x ≡ true) xs
all_iff p [] = (λ h. tt, λ h. refl)
all_iff p (x ∷ xs) = (
  λ h. (ground arith, (all_iff p xs).0 (ground arith)),
  λ h. ground (arith, (all_iff p xs).1 h.1),
)

-- `every` over two sets with the same members.
all_same :
    (p : String → Bool) (xs ys : List String)
    → ((b : String) → Sets.has b ys ≡ true → Sets.has b xs ≡ true)
    → all p xs ≡ true
    → all p ys ≡ true
all_same p xs ys h k = (all_iff p ys).1 (
    All-of_has (λ x. p x ≡ true) ys
      λ b m. has_of_All (λ x. p x ≡ true) xs b ((all_iff p xs).0 k) (h b m))

pub unblocked-released :
    (tasks : List Task) (ds : List TaskDependency) (t : String)
    → is_unblocked ds (completed_ids tasks) t ≡ is_released tasks ds t
unfolding Maps.get Sets.has
unblocked-released tasks ds t =
    ap (λ (p : String → Bool). all p (or_else (Maps.get t (blocked_by ds [])) []))
      (fun_ext (has-completed_ids tasks))
    ∙ Bool_ext (all (is_done tasks) (or_else (Maps.get t (blocked_by ds [])) []))
        (is_released tasks ds t)
        (all_same (is_done tasks) (or_else (Maps.get t (blocked_by ds [])) []) (blockers ds t)
          (λ b m. has-blocked_by ds [] t b ∙ m))
        (all_same (is_done tasks) (blockers ds t) (or_else (Maps.get t (blocked_by ds [])) [])
          (λ b m. sym (has-blocked_by ds [] t b) ∙ m))

-- A task may start: it is ready, it is not running, and all that blocks it is completed.
abbrev pub may_start : List Task → List TaskDependency → List String → Task → Bool
may_start tasks ds active t =
    is_ready t.status && not (Sets.has t.id active) && is_released tasks ds t.id

may_start_lem :
    (tasks : List Task) (ds : List TaskDependency) (active : List String)
    → compute_ready_tasks tasks ds active
      ≡ (check_graph tasks ds >>= λ _. ok (filter (may_start tasks ds active) tasks))
unfolding compute_ready_tasks
may_start_lem tasks ds active =
    ap
      (λ (p : String → Bool). check_graph tasks ds >>= λ _.
        ok (filter (λ t. is_ready t.status && not (Sets.has t.id active) && p t.id) tasks))
      (fun_ext (unblocked-released tasks ds))

-- The ready tasks are computed exactly when the graph is well formed, and then they are the tasks
-- that may start, in the order of the tracker: those of status ready, not active, with every task
-- that blocks them completed.
pub compute_ready_tasks_iff :
    (tasks : List Task) (ds : List TaskDependency) (active : List String) (found : List Task)
    → (compute_ready_tasks tasks ds active ≡ ok found)
      ↔ (IsWellFormed (checked_graph tasks ds) × (found ≡ filter (may_start tasks ds active) tasks))
compute_ready_tasks_iff tasks ds active found = rw may_start_lem (
  λ h. ((validate_task_graph_iff (checked_graph tasks ds)).0 (ground arith), ground arith),
  λ h. ground (arith, (validate_task_graph_iff (checked_graph tasks ds)).1 h.0),
)
