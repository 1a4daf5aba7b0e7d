-- ===== src/Core/Domain.antt =====
-- The entities of packages/core/src/domain.ts that the modelled operations read or write.
use dark_kitchen_orchestrato.Prelude.{String, Option, List, Result, ◌>>◌, Bool, true, false}
use dark_kitchen_orchestrato.Core.Ids.{DomainError, assert_non_empty}

-- `ProviderReference`
pub record ProviderReference : Type 0 where
  pub provider : String
  pub id : String
  pub url : Option String

pub data TaskStatus : Type 0 where
  backlog ready active blocked completed cancelled : TaskStatus

pub record Project : Type 0 where
  pub id : String
  pub name : String
  pub tracker_reference : Option ProviderReference
  pub repository_id : Option String
  pub created_at : String
  pub updated_at : String

pub record Task : Type 0 where
  pub id : String
  pub project_id : String
  pub title : String
  pub description : Option String
  pub labels : Option (List String)
  pub status : TaskStatus
  pub tracker_reference : Option ProviderReference
  pub created_at : String
  pub updated_at : String

pub data TaskDependencyKind : Type 0 where
  blocks related : TaskDependencyKind

pub record TaskDependency : Type 0 where
  pub id : String
  pub task_id : String
  pub depends_on_task_id : String
  pub kind : TaskDependencyKind

pub record TaskGraph : Type 0 where
  pub id : String
  pub project_id : String
  pub task_ids : List String
  pub dependencies : List TaskDependency
  pub created_at : String
  pub updated_at : String

pub data WorkspaceKind : Type 0 where
  primary_worktree auxiliary : WorkspaceKind

pub data WorkspaceState : Type 0 where
  provisioning active released failed : WorkspaceState

pub record Workspace : Type 0 where
  pub id : String
  pub project_id : String
  pub task_id : String
  pub repository_id : String
  pub kind : WorkspaceKind
  pub state : WorkspaceState
  pub path : String
  pub revision : Option String
  pub created_at : String
  pub updated_at : String

-- `status === 'completed'`, and so for the other tests on tags.
abbrev pub is_completed : TaskStatus → Bool
is_completed completed = true
is_completed _ = false

abbrev pub is_ready : TaskStatus → Bool
is_ready ready = true
is_ready _ = false

abbrev pub is_backlog : TaskStatus → Bool
is_backlog backlog = true
is_backlog _ = false

abbrev pub is_blocks : TaskDependencyKind → Bool
is_blocks blocks = true
is_blocks related = false

abbrev pub is_primary_worktree : WorkspaceKind → Bool
is_primary_worktree primary_worktree = true
is_primary_worktree auxiliary = false

-- `state === 'provisioning' || state === 'active'`
abbrev pub is_held : WorkspaceState → Bool
is_held provisioning = true
is_held WorkspaceState.active = true
is_held _ = false

-- `validateProject`
unfoldable pub validate_project : Project → Result DomainError (Unit {0})
unfolding assert_non_empty
validate_project p = do
  assert_non_empty p.name
  assert_non_empty p.created_at
  assert_non_empty p.updated_at

-- `validateTask`
unfoldable pub validate_task : Task → Result DomainError (Unit {0})
unfolding assert_non_empty
validate_task t = do
  assert_non_empty t.title
  assert_non_empty t.created_at
  assert_non_empty t.updated_at
