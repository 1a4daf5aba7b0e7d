-- ===== src/Core/Graph/Validity.antt =====
-- `validateTaskGraph` accepts exactly the well-formed graphs.
use mathlib.Core.Path.{fun_ext}
use dark_kitchen_orchestrato.Prelude.{
  String, ◌≡◌, ◌≢◌, refl, sym, ◌∙◌, ◌↔◌, true, ◌&&◌, List, [], ◌∷◌, Result, ok, err, guard, ◌>>=◌,
  ◌>>◌, >>=-eq-ok, arith, ◌==◌, eq_iff, nat_eq, length, All, Bool-cases, ◌⊎◌, inl, inr,
}
use dark_kitchen_orchestrato.Prelude.Sets
use dark_kitchen_orchestrato.Prelude.Sets.{has-of_list, length-of_list, Uniq, Fresh}
use dark_kitchen_orchestrato.Prelude.Maps
use dark_kitchen_orchestrato.Core.Ids.{DomainError, cyclic, duplicate_tasks, out_of_fuel}
use dark_kitchen_orchestrato.Core.Domain.{TaskDependency, TaskGraph, is_blocks}
use dark_kitchen_orchestrato.Core.Graph.{Scan, scan, find_cycle, edges_of, validate_task_graph}
use dark_kitchen_orchestrato.Core.Graph.Paths.{IsAcyclic, HasCycle}
use dark_kitchen_orchestrato.Core.Graph.Search.{Outcome, passed, refused}
use dark_kitchen_orchestrato.Core.Graph.Cycles.{find_cycle-Outcome}
use dark_kitchen_orchestrato.Core.Graph.Scanning.{
  blockers, IsKnown, IsProper, ids, dependency_keys, Fits-scan, scan-Fits, edges_of-scan,
  is_scan_error, scan_error,
}

-- What a task graph must satisfy, with no reference to the way it is checked.
pub record IsWellFormed (g : TaskGraph) : Type 0 where
  pub unique_tasks : Uniq g.task_ids
  pub known : All (IsKnown g.task_ids) g.dependencies
  pub proper : All IsProper g.dependencies
  pub unique_ids : Uniq (ids g.dependencies)
  pub unique_keys : Uniq (dependency_keys g.dependencies)
  pub acyclic : IsAcyclic (blockers g.dependencies)

abbrev no_scan : Scan
no_scan = record { dependency_keys = []; dependency_ids = []; blocking_edges = [] }

IsKnown-of_list :
    (ts : List String) (ds : List TaskDependency)
    → All (IsKnown (Sets.of_list ts)) ds ↔ All (IsKnown ts) ds
IsKnown-of_list ts [] = (λ h. tt, λ h. tt)
IsKnown-of_list ts (d ∷ ds) = (
  λ h. (
    (sym (has-of_list d.task_id ts) ∙ h.0.0, sym (has-of_list d.depends_on_task_id ts) ∙ h.0.1),
    (IsKnown-of_list ts ds).0 h.1,
  ),
  λ h. (
    (has-of_list d.task_id ts ∙ h.0.0, has-of_list d.depends_on_task_id ts ∙ h.0.1),
    (IsKnown-of_list ts ds).1 h.1,
  ),
)

blockers-known :
    (ts : List String) (ds : List TaskDependency) (a b : String)
    → All (IsKnown ts) ds
    → Sets.has b (blockers ds a) ≡ true
    → Sets.has b ts ≡ true
unfolding Sets.has
blockers-known ts [] a b h k = cc
blockers-known ts (d ∷ ds) a b h k = elim (Bool-cases (is_blocks d.kind && (d.task_id == a))) [
  | inl e ↦ elim (Bool-cases (d.depends_on_task_id == b)) [
    | inl q ↦ rw (← (eq_iff d.depends_on_task_id b).0 q) (h.0.1)
    | inr q ↦ blockers-known ts ds a b h.1 (ground arith)
  ]
  | inr e ↦ blockers-known ts ds a b h.1 (ground arith)
]

Fresh-nil_ids : (xs : List String) → Fresh [] xs
unfolding Sets.has
Fresh-nil_ids [] = tt
Fresh-nil_ids (x ∷ xs) = (refl, Fresh-nil_ids xs)

module _ (g : TaskGraph) where
  scanned_edges :
      (s : Scan)
      → scan (Sets.of_list g.task_ids) g.dependencies no_scan ≡ ok s
      → edges_of s.blocking_edges ≡ blockers g.dependencies
  unfolding edges_of Maps.get
  scanned_edges s h =
      fun_ext λ t. edges_of-scan (Sets.of_list g.task_ids) g.dependencies no_scan t h

  searched :
      (s : Scan)
      → scan (Sets.of_list g.task_ids) g.dependencies no_scan ≡ ok s
      → All (IsKnown g.task_ids) g.dependencies
      → Outcome (blockers g.dependencies) (find_cycle g.task_ids (edges_of s.blocking_edges))
  searched s h k = rw (scanned_edges s h) (
      find_cycle-Outcome g.task_ids (blockers g.dependencies)
        (λ a b. blockers-known g.task_ids g.dependencies a b k))

  -- What is left of the function once the scan has passed.
  validate_scanned :
      Uniq g.task_ids
      → (s : Scan) → scan (Sets.of_list g.task_ids) g.dependencies no_scan ≡ ok s
      → validate_task_graph g ≡ (find_cycle g.task_ids (edges_of s.blocking_edges) >>= λ _. ok tt)
  unfolding validate_task_graph
  validate_scanned u s h = ground (arith, (length-of_list g.task_ids).1 u)

  accepted_unique : {u : Unit {0}} → validate_task_graph g ≡ ok u → Uniq g.task_ids
  unfolding validate_task_graph
  accepted_unique h = (length-of_list g.task_ids).0 (ground arith)

  accepted_scan :
      validate_task_graph g ≡ ok tt
      → (s : Scan) × (scan (Sets.of_list g.task_ids) g.dependencies no_scan ≡ ok s)
  unfolding validate_task_graph
  accepted_scan h =
      let tasks = Sets.of_list g.task_ids in
      let (u, first, rest) =
        >>=-eq-ok (guard (nat_eq (length tasks) (length g.task_ids)) duplicate_tasks)
          (λ _. scan tasks g.dependencies no_scan >>= λ s.
            find_cycle g.task_ids (edges_of s.blocking_edges) >> ok tt)
          h in
      let (s, second, last) =
        >>=-eq-ok (scan tasks g.dependencies no_scan)
          (λ s. find_cycle g.task_ids (edges_of s.blocking_edges) >> ok tt) rest in
      (s, second)

  IsAcyclic-of_ok :
      (s : Scan)
      → validate_task_graph g ≡ ok tt
      → scan (Sets.of_list g.task_ids) g.dependencies no_scan ≡ ok s
      → Outcome (blockers g.dependencies) (find_cycle g.task_ids (edges_of s.blocking_edges))
      → IsAcyclic (blockers g.dependencies)
  IsAcyclic-of_ok s h k (passed m e a) = a
  IsAcyclic-of_ok s h k (refused e c) = absurd (cc (validate_scanned (accepted_unique h) s k))

  IsWellFormed-of_ok : validate_task_graph g ≡ ok tt → IsWellFormed g
  IsWellFormed-of_ok h =
      let (s, k) = accepted_scan h in
      let f = Fits-scan (Sets.of_list g.task_ids) g.dependencies no_scan k in
      let known = (IsKnown-of_list g.task_ids g.dependencies).0 f.known in
      record {
        unique_tasks = accepted_unique h;
        known = known;
        proper = f.proper;
        unique_ids = f.unique_ids;
        unique_keys = f.unique_keys;
        acyclic = IsAcyclic-of_ok s h k (searched s k known);
      }

  ok_of_acyclic :
      (s : Scan)
      → IsAcyclic (blockers g.dependencies)
      → Outcome (blockers g.dependencies) (find_cycle g.task_ids (edges_of s.blocking_edges))
      → (find_cycle g.task_ids (edges_of s.blocking_edges) >>= λ _. ok tt) ≡ ok tt
  ok_of_acyclic s a (passed m e _) = rw e
  ok_of_acyclic s a (refused e c) = absurd (a c.0 c.1)

  ok_of_IsWellFormed : IsWellFormed g → validate_task_graph g ≡ ok tt
  ok_of_IsWellFormed w =
      let (s, k) = scan-Fits (Sets.of_list g.task_ids) g.dependencies no_scan (record {
        known = (IsKnown-of_list g.task_ids g.dependencies).1 w.known;
        proper = w.proper;
        unique_ids = w.unique_ids;
        fresh_ids = Fresh-nil_ids (ids g.dependencies);
        unique_keys = w.unique_keys;
        fresh_keys = Fresh-nil_ids (dependency_keys g.dependencies);
      }) in
      validate_scanned w.unique_tasks s k ∙ ok_of_acyclic s w.acyclic (searched s k w.known)

  -- A task graph is accepted exactly if its task ids, its dependency ids and its dependencies are
  -- unique, each dependency joins two different tasks of the graph, and no task blocks itself
  -- along a path of blocking dependencies.
  pub validate_task_graph_iff : (validate_task_graph g ≡ ok tt) ↔ IsWellFormed g
  validate_task_graph_iff = (IsWellFormed-of_ok, ok_of_IsWellFormed)

  -- The rest of the function, from the result of the scan on.
  abbrev after_scan : Result DomainError Scan → Result DomainError (Unit {0})
  after_scan r = r >>= λ s. find_cycle g.task_ids (edges_of s.blocking_edges) >>= λ _. ok tt

  abbrev scanned : Result DomainError Scan
  scanned = scan (Sets.of_list g.task_ids) g.dependencies no_scan

  validate-err :
      (e : DomainError)
      → validate_task_graph g ≡ err e
      → (e ≡ duplicate_tasks) ⊎ (after_scan scanned ≡ err e)
  unfolding validate_task_graph
  validate-err e h = ground arith

  data Refusal (e : DomainError) : Type 0 where
    in_scan : is_scan_error e ≡ true → Refusal e
    in_search : e ≡ cyclic → HasCycle (blockers g.dependencies) → Refusal e

  Refusal-of_scan :
      (e : DomainError) (r : Result DomainError Scan)
      → scanned ≡ r
      → ((x : DomainError) → r ≡ err x → is_scan_error x ≡ true)
      → after_scan r ≡ err e
      → Refusal e
  Refusal-of_scan e (err x) q i h = in_scan (i e (cc h))
  Refusal-of_scan e (ok s) q i h = go (
      searched s q (
        (IsKnown-of_list g.task_ids g.dependencies).0
          (Fits-scan (Sets.of_list g.task_ids) g.dependencies no_scan q).known))
    where
      go :
          Outcome (blockers g.dependencies) (find_cycle g.task_ids (edges_of s.blocking_edges))
          → Refusal e
      go (passed m k a) = absurd (cc)
      go (refused k c) = in_search (cc) c

  refusal : (e : DomainError) → validate_task_graph g ≡ err e → e ≢ duplicate_tasks → Refusal e
  refusal e h n = elim (validate-err e h) [
    | inl q ↦ absurd (n q)
    | inr q ↦
        Refusal-of_scan e scanned refl (scan_error (Sets.of_list g.task_ids) g.dependencies no_scan)
          q
  ]

  cycle_of_Refusal : Refusal cyclic → HasCycle (blockers g.dependencies)
  cycle_of_Refusal (in_scan i) = absurd (cc)
  cycle_of_Refusal (in_search e c) = c

  not-Refusal : ¬ Refusal out_of_fuel
  not-Refusal (in_scan i) = cc
  not-Refusal (in_search e c) = cc

  -- The depth of the search is bounded by the number of tasks: its fuel never runs out.
  validate_task_graph_total : validate_task_graph g ≢ err out_of_fuel
  validate_task_graph_total h = not-Refusal (refusal out_of_fuel h (λ e. cc))
