-- ===== src/Core/Worktrees.antt =====
-- The primary worktrees in packages/core/src/domain.ts: `canonicalizeWorkspacePath` over the
-- functions of `node:path` and `node:fs`, and `validatePrimaryWorktreeInvariant`.
pub mod Canonical
pub mod Ownership
use dark_kitchen_orchestrato.Prelude.{
  ℕ, zero, suc, ◌<◌, String, ◌≢◌, Bool, true, false, not, ◌&&◌, ◌||◌, Option, none, some, or_else,
  List, [], ◌∷◌, ◌++◌, Result, ok, err, guard, ◌>>=◌, ◌>>◌, ◌==◌, nat_eq, length, if◌then◌else◌,
}
use dark_kitchen_orchestrato.Prelude.Sets
use dark_kitchen_orchestrato.Prelude.Maps
use dark_kitchen_orchestrato.Core.Ids.{
  DomainError, duplicate_active, second_primary, shared_path, no_primary,
}
use dark_kitchen_orchestrato.Core.Domain.{Workspace, is_primary_worktree, is_held}

-- What the code uses of `node:path` and `node:fs`: `resolve`, `realpathSync.native` (`none` where
-- it throws), `dirname` and `basename`. Going to the parent ends: each proper parent has a smaller
-- depth, the number of its segments.
pub record PathApi : Type 0 where
  pub resolve : String → List String → String
  pub real_path : String → Option String
  pub dirname : String → String
  pub basename : String → String
  pub depth : String → ℕ
  pub depth-dirname : (p : String) → dirname p ≢ p → depth (dirname p) < depth p

module _ (api : PathApi) where
  open api use {resolve, real_path, dirname, basename, depth}

  -- The `while (true)` loop. The suffix is kept in the order in which `reverse()` hands it on.
  unfoldable pub resolve_from : ℕ → String → String → List String → Option String
  resolve_from zero normalized unresolved suffix = none
  resolve_from (suc n) normalized unresolved suffix = elim (real_path unresolved) [
    | some real ↦ some (resolve real suffix)
    | none ↦ elim (dirname unresolved == unresolved) [
      | true ↦ some normalized
      | false ↦ resolve_from n normalized (dirname unresolved) (basename unresolved ∷ suffix)
    ]
  ]

  -- `canonicalizeWorkspacePath`. The fuel, one more than the depth of the path, does not run out.
  unfoldable pub canonicalize_workspace_path : String → String
  unfolding resolve_from
  canonicalize_workspace_path path =
      let normalized = resolve path [] in
      or_else (resolve_from (suc (depth normalized)) normalized normalized []) normalized

-- The test that the loop of `validatePrimaryWorktreeInvariant` continues on, negated.
abbrev pub holds_worktree : Workspace → Bool
holds_worktree w = is_primary_worktree w.kind && is_held w.state

-- `primaryByTask` and `taskByCanonicalWorktreePath`
pub record Owners : Type 0 where
  pub primary_by_task : List (String × String)
  pub task_by_path : List (String × String)

module _ (api : PathApi) where
  -- One round of the loop over the workspaces.
  unfoldable pub claim_one : Workspace → Owners → Result DomainError Owners
  claim_one w s =
      if holds_worktree w
      then (do
        guard (not (Maps.has w.task_id s.primary_by_task)) (second_primary w.task_id)
        guard (not (Maps.has (canonicalize_workspace_path api w.path) s.task_by_path))
            (shared_path w.path)
        ok (record {
          primary_by_task = Maps.put w.task_id w.id s.primary_by_task;
          task_by_path = Maps.put (canonicalize_workspace_path api w.path) w.task_id s.task_by_path;
        }))
      else ok s

  unfoldable pub claim_all : List Workspace → Owners → Result DomainError Owners
  unfolding claim_one
  claim_all [] s = ok s
  claim_all (w ∷ ws) s = claim_one w s >>= claim_all ws

  -- The loop over the active tasks.
  unfoldable pub require_primaries : List String → Owners → Result DomainError (Unit {0})
  require_primaries [] s = ok tt
  require_primaries (t ∷ ts) s = do
    guard (Maps.has t s.primary_by_task) (no_primary t)
    require_primaries ts s

  -- `validatePrimaryWorktreeInvariant`
  unfoldable pub validate_primary_worktree_invariant :
      List String → List Workspace → Result DomainError (Unit {0})
  unfolding claim_all require_primaries
  validate_primary_worktree_invariant active_task_ids workspaces = do
    let active_tasks = Sets.of_list active_task_ids
    guard (nat_eq (length active_tasks) (length active_task_ids)) duplicate_active
    s ← claim_all workspaces (record { primary_by_task = []; task_by_path = [] })
    require_primaries active_tasks s
