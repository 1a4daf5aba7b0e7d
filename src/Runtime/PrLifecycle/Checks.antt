-- ===== src/Runtime/PrLifecycle/Checks.antt =====
-- The tests of `PrLifecycleOrchestrator.run` of packages/runtime/src/pr-lifecycle.ts, and its checks
-- before anything outside is called.
use dark_kitchen_orchestrato.Prelude.{
  String, Bool, true, false, not, ◌||◌, Option, none, some, or_else, List, [], ◌==◌, ltb, length,
  any, find, if◌then◌else◌,
}
use dark_kitchen_orchestrato.Runtime.PrLifecycle.{
  TextApi, WorkflowResult, PrLifecycleOptions, PrLifecycleResult, LifecycleState, checks_failed,
  workflow_invalid, verification_failed, Mergeability, conflicting, Check, check_queued,
  check_running, check_passed,
}
use dark_kitchen_orchestrato.Runtime.PrLifecycle.Texts.{is_blank, build_pr_body}
use dark_kitchen_orchestrato.Runtime.PrLifecycle.Evidence.{validate_verification_proofs}

abbrev pub is_true : Option Bool → Bool
is_true o = or_else o false

abbrev pub is_conflicting : Option Mergeability → Bool
is_conflicting (some conflicting) = true
is_conflicting _ = false

abbrev pub has_passed : Option Check → Bool
has_passed none = false
has_passed (some c) = elim c.status [ check_passed ↦ true | _ ↦ false ]

abbrev pub is_pending : Option Check → Bool
is_pending none = true
is_pending (some c) = elim c.status [ check_queued ↦ true | check_running ↦ true | _ ↦ false ]

-- `checks.find((c) => c.name === req)`
abbrev pub check_of : List Check → String → Option Check
check_of checks name = find (λ (c : Check). c.name == name) checks

-- A result with nothing done to the tracker or the worktree.
abbrev pub stopped : LifecycleState → Option String → String → PrLifecycleResult
stopped state pr_id message = record {
  pull_request_id = pr_id;
  is_merged = false;
  tracker_closed = false;
  worktree_released = false;
  state = state;
  error_message = some message;
}

abbrev pub required : PrLifecycleOptions → List String
required options = or_else options.required_checks []

module _ (texts : TextApi) (options : PrLifecycleOptions) where
  -- The checks before anything outside is called.
  unfoldable pub validate : WorkflowResult → Option PrLifecycleResult
  validate r =
      if is_blank texts r.summary
      then some (stopped workflow_invalid none "Workflow summary must not be empty")
      else if not r.repository_tests_passed
      then some (stopped checks_failed none "Repository tests did not pass")
      else if not r.review_passed
      then some (stopped workflow_invalid none "Independent review did not pass")
      else if not (or_else r.worktree_clean true)
      then some
          (stopped workflow_invalid none "Task worktree contains unintended uncommitted changes")
      else elim (validate_verification_proofs texts r options) [
        | some e ↦ some (stopped verification_failed none e)
        | none ↦ none
      ]

  -- The checks before a pull request is looked for.
  unfoldable pub validate_branches : WorkflowResult → Option PrLifecycleResult
  validate_branches r =
      if not (ltb 0 (length r.commits))
      then some (stopped checks_failed none "No commits in worktree")
      else if any (is_blank texts) r.commits
      then some (stopped workflow_invalid none "Workflow result contains an empty commit reference")
      else if is_blank texts options.source_branch || is_blank texts options.target_branch
      then some (stopped workflow_invalid none "Source and target branches must not be empty")
      else if options.source_branch == options.target_branch
      then some (stopped workflow_invalid none "Source and target branches must be different")
      else if ltb 60000 (texts.size (build_pr_body texts r))
      then some
          (stopped workflow_invalid none "PR summary and proof metadata exceed the safe body limit")
      else none
