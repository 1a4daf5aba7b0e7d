-- ===== src/Core.antt =====
-- packages/core/src/domain.ts: the entities, the validation of a task graph, the invariant of
-- the primary worktrees, and the life of runs and agent sessions.
pub mod Ids
pub mod Domain
pub mod Graph
pub mod Worktrees
pub mod Runs
mod Examples
