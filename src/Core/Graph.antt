-- ===== src/Core/Graph.antt =====
-- `validateTaskGraph` of packages/core/src/domain.ts: the scan of the dependencies, then the
-- depth-first search for a cycle of blocking edges.
pub mod Paths
pub mod Visits
pub mod Search
pub mod Cycles
pub mod Scanning
pub mod Validity
use Prim.Native.String.{◌++◌ as append}
use dark_kitchen_orchestrato.Prelude.{
  ℕ, zero, suc, String, Bool, true, false, not, ◌&&◌, List, [], ◌∷◌, ◌++◌, Option, none, some,
  Result, ok, err, guard, ◌>>=◌, ◌>>◌, ◌==◌, nat_eq, length, or_else, if◌then◌else◌,
}
use dark_kitchen_orchestrato.Prelude.Sets
use dark_kitchen_orchestrato.Prelude.Maps
use dark_kitchen_orchestrato.Core.Ids.{
  DomainError, duplicate_tasks, unknown_task, self_dependency, duplicate_dependency_ids,
  duplicate_dependencies, cyclic, out_of_fuel,
}
use dark_kitchen_orchestrato.Core.Domain.{
  TaskDependency, TaskDependencyKind, blocks, related, is_blocks, TaskGraph,
}

-- The variables of the loop over the dependencies.
pub record Scan : Type 0 where
  pub dependency_keys : List String
  pub dependency_ids : List String
  pub blocking_edges : List (String × List String)

abbrev pub kind_text : TaskDependencyKind → String
kind_text blocks = "blocks"
kind_text related = "related"

-- The template `${taskId}:${dependsOnTaskId}:${kind}`
abbrev pub dependency_key : TaskDependency → String
dependency_key d =
    append d.task_id (append ":" (append d.depends_on_task_id (append ":" (kind_text d.kind))))

-- `blockingEdges.get(taskId) ?? []`
unfoldable pub edges_of : List (String × List String) → String → List String
edges_of m t = or_else (Maps.get t m) []

unfoldable pub add_edge : TaskDependency → List (String × List String) → List (String × List String)
unfolding edges_of
add_edge d m =
    if is_blocks d.kind
    then Maps.put d.task_id (edges_of m d.task_id ++ d.depends_on_task_id ∷ []) m
    else m

-- One round of the loop over the dependencies.
unfoldable pub scan_one : List String → TaskDependency → Scan → Result DomainError Scan
scan_one task_ids d s = do
  guard (Sets.has d.task_id task_ids && Sets.has d.depends_on_task_id task_ids) unknown_task
  guard (not (d.task_id == d.depends_on_task_id)) self_dependency
  guard (not (Sets.has d.id s.dependency_ids)) duplicate_dependency_ids
  guard (not (Sets.has (dependency_key d) s.dependency_keys)) duplicate_dependencies
  ok (record {
    dependency_keys = Sets.add (dependency_key d) s.dependency_keys;
    dependency_ids = Sets.add d.id s.dependency_ids;
    blocking_edges = add_edge d s.blocking_edges;
  })

unfoldable pub scan : List String → List TaskDependency → Scan → Result DomainError Scan
scan task_ids [] s = ok s
scan task_ids (d ∷ ds) s = scan_one task_ids d s >>= scan task_ids ds

-- `visiting` and `visited`
pub record Marks : Type 0 where
  pub visiting : List String
  pub visited : List String

-- A loop `for (const id of ids) visit(id)`.
unfoldable pub visit_each :
    (String → Marks → Result DomainError Marks) → List String → Marks → Result DomainError Marks
visit_each f [] s = ok s
visit_each f (t ∷ ts) s = f t s >>= visit_each f ts

-- `visit`; the first argument bounds the depth of the recursion.
unfoldable pub visit : ℕ → (String → List String) → String → Marks → Result DomainError Marks
visit zero edges t s = err out_of_fuel
visit (suc n) edges t s = elim (Sets.has t s.visiting) [
  | true ↦ err cyclic
  | false ↦ elim (Sets.has t s.visited) [
    | true ↦ ok s
    | false ↦
        visit_each (visit n edges) (edges t) (record s { visiting = Sets.add t s.visiting })
        >>= λ s'.
            ok (record { visiting = Sets.delete t s'.visiting; visited = Sets.add t s'.visited })
  ]
]

-- One more than the number of tasks: the recursion is never deeper.
unfoldable pub find_cycle : List String → (String → List String) → Result DomainError Marks
find_cycle ids edges =
    visit_each (visit (suc (length ids)) edges) ids (record { visiting = []; visited = [] })

-- `validateTaskGraph`
unfoldable pub validate_task_graph : TaskGraph → Result DomainError (Unit {0})
validate_task_graph g = do
  let task_ids = Sets.of_list g.task_ids
  guard (nat_eq (length task_ids) (length g.task_ids)) duplicate_tasks
  s ←
      scan task_ids g.dependencies
        (record { dependency_keys = []; dependency_ids = []; blocking_edges = [] })
  find_cycle g.task_ids (edges_of s.blocking_edges)
  ok tt
