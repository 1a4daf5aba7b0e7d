-- ===== src/Runtime/PrLifecycle/Closing.antt =====
-- `PrLifecycleOrchestrator.run` of packages/runtime/src/pr-lifecycle.ts: the pull request is found or
-- made, merged, the merge verified, the task closed, and the worktree released.
use Prim.Native.String.{◌++◌ as append}
use dark_kitchen_orchestrato.Prelude.{
  ℕ, String, Bool, true, false, not, Option, none, some, or_else, Result, err, ok, [], ◌∷◌, ltb,
  length, if◌then◌else◌,
}
use dark_kitchen_orchestrato.Runtime.PrLifecycle.{
  TextApi, Services, PrLifecycleOptions, PrLifecycleResult, WorkflowResult, PullRequest,
  PullRequestStatus, open_pr, merged_pr, closed_pr, workflow_invalid, pr_failed, merge_refused,
  merged, tracker_close_failed, merge_verification_failed, worktree_release_failed,
  awaiting_approval, no_code, Answer, find_pull_request, create_pull_request, update_body,
  verify_merged, close_task, delete_branch, release_worktree, Trace,
}
use dark_kitchen_orchestrato.Runtime.PrLifecycle.Texts.{
  safe_error_message, build_pr_title, build_pr_body,
}
use dark_kitchen_orchestrato.Runtime.PrLifecycle.Checks.{
  is_true, stopped, required, validate, validate_branches,
}
use dark_kitchen_orchestrato.Runtime.PrLifecycle.Merging.{merge_loop}

-- `Math.max(1, options.externalFixPolls ?? 3)`
abbrev pub max_attempts : PrLifecycleOptions → ℕ
max_attempts options =
    let polls = or_else options.external_fix_polls 3 in if ltb 1 polls then polls else 1

module _ (texts : TextApi) (options : PrLifecycleOptions) (services : Services) where
  abbrev pub after_release :
      PrLifecycleResult → Trace → Answer (Unit {0}) → PrLifecycleResult × Trace
  after_release r t (ok u) = (record r { worktree_released = true }, release_worktree (ok u) ∷ t)
  after_release r t (err e) = (
    record r { state = worktree_release_failed; error_message = some (safe_error_message texts e) },
    release_worktree (err e) ∷ t,
  )

  -- The release of the worktree, if there is a function for it.
  unfoldable pub release_with :
      Option (Trace → Answer (Unit {0})) → PrLifecycleResult → Trace → PrLifecycleResult × Trace
  release_with none r t = (r, t)
  release_with (some release) r t = after_release r t (release t)

  -- The clean-up of the branch, whose failure is ignored.
  unfoldable pub clean_up : Trace → Trace
  clean_up t =
      if is_true options.delete_head_branch_after_merge
      then delete_branch (services.delete t) ∷ t
      else t

  -- The result of a merged pull request whose task is closed.
  abbrev pub closed_result : PullRequest → PrLifecycleResult
  closed_result pr = record {
    pull_request_id = some pr.id;
    is_merged = true;
    tracker_closed = true;
    worktree_released = false;
    state = merged;
    error_message = none;
  }

  abbrev pub after_close : PullRequest → Trace → Answer (Unit {0}) → PrLifecycleResult × Trace
  after_close pr t (ok u) =
      release_with services.release (closed_result pr) (clean_up (close_task (ok u) ∷ t))
  after_close pr t (err e) = (
    record {
      pull_request_id = some pr.id;
      is_merged = true;
      tracker_closed = false;
      worktree_released = false;
      state = tracker_close_failed;
      error_message = some "PR merged but tracker close failed — retry with dk runs";
    },
    close_task (err e) ∷ t,
  )

  abbrev pub after_verify : PullRequest → Trace → Answer Bool → PrLifecycleResult × Trace
  after_verify pr t (err e) = (
    stopped merge_verification_failed (some pr.id)
        (append "Could not verify merged state: " (safe_error_message texts e)),
    verify_merged pr.id (err e) ∷ t,
  )
  after_verify pr t (ok false) = (
    stopped merge_verification_failed (some pr.id)
        "SCM did not confirm that the pull request is merged",
    verify_merged pr.id (ok false) ∷ t,
  )
  after_verify pr t (ok true) =
      let t1 = verify_merged pr.id (ok true) ∷ t in after_close pr t1 (services.close t1)

  -- What follows the merge.
  unfoldable pub finish : Result PrLifecycleResult PullRequest × Trace → PrLifecycleResult × Trace
  finish (err r, t) = (r, t)
  finish (ok pr, t) = after_verify pr t (services.verify t)

  abbrev awaiting : PullRequest → PrLifecycleResult
  awaiting pr = record {
    pull_request_id = some pr.id;
    is_merged = false;
    tracker_closed = false;
    worktree_released = false;
    state = awaiting_approval;
    error_message = none;
  }

  -- A pull request at hand, by its status.
  abbrev pub advance_at : PullRequest → Trace → PullRequestStatus → PrLifecycleResult × Trace
  advance_at pr t merged_pr = finish (ok pr, t)
  advance_at pr t closed_pr =
      (stopped pr_failed (some pr.id) "Existing pull request is closed without merge", t)
  advance_at pr t open_pr =
      if not (is_true options.auto_merge)
      then (awaiting pr, t)
      else if not (ltb 0 (length (required options)))
      then (
        stopped merge_refused (some pr.id)
            "Auto-merge requires at least one explicitly configured required SCM check.",
        t,
      )
      else finish (merge_loop texts options services pr (max_attempts options) none t)

  unfoldable pub advance : PullRequest → Trace → PrLifecycleResult × Trace
  advance pr t = advance_at pr t pr.status

  abbrev pub no_pull_request : String → PrLifecycleResult
  no_pull_request e =
      stopped pr_failed none
        (append "Could not create or recover pull request: " (safe_error_message texts e))

  abbrev pub after_create : String → String → Trace → Answer PullRequest → PrLifecycleResult × Trace
  after_create title body t (ok pr) = advance pr (create_pull_request title body (ok pr) ∷ t)
  after_create title body t (err e) =
      (no_pull_request e, create_pull_request title body (err e) ∷ t)

  abbrev pub after_update :
      PullRequest → String → Trace → Answer (Unit {0}) → PrLifecycleResult × Trace
  after_update pr body t (ok u) = advance pr (update_body pr.id body (ok u) ∷ t)
  after_update pr body t (err e) = (no_pull_request e, update_body pr.id body (err e) ∷ t)

  -- A pull request that is found is used, with a new body if it is open.
  abbrev pub reuse_at : PullRequest → String → Trace → PullRequestStatus → PrLifecycleResult × Trace
  reuse_at pr body t open_pr = after_update pr body t (services.update t)
  reuse_at pr body t merged_pr = advance pr t
  reuse_at pr body t closed_pr = advance pr t

  abbrev pub after_find :
      String → String → Trace → Answer (Option PullRequest) → PrLifecycleResult × Trace
  after_find title body t (err e) = (no_pull_request e, find_pull_request (err e) ∷ t)
  after_find title body t (ok none) =
      let t1 = find_pull_request (ok none) ∷ t in after_create title body t1 (services.create t1)
  after_find title body t (ok (some pr)) =
      reuse_at pr body (find_pull_request (ok (some pr)) ∷ t) pr.status

  abbrev pub no_code_result : PrLifecycleResult
  no_code_result = record {
    pull_request_id = none;
    is_merged = false;
    tracker_closed = true;
    worktree_released = false;
    state = no_code;
    error_message = none;
  }

  abbrev pub after_no_code_close : Trace → Answer (Unit {0}) → PrLifecycleResult × Trace
  after_no_code_close t (err e) = (
    stopped tracker_close_failed none
        (append "No-code outcome passed but tracker close failed: " (safe_error_message texts e)),
    close_task (err e) ∷ t,
  )
  after_no_code_close t (ok u) =
      release_with services.release no_code_result (close_task (ok u) ∷ t)

  -- A workflow that changes no code.
  unfoldable pub close_no_code : WorkflowResult → PrLifecycleResult × Trace
  close_no_code r =
      if ltb 0 (length r.commits)
      then (stopped workflow_invalid none "No-code outcome unexpectedly contains commits", [])
      else after_no_code_close [] (services.close [])

  -- The way to a pull request and on from it.
  unfoldable pub pursue : WorkflowResult → Option PrLifecycleResult → PrLifecycleResult × Trace
  pursue r (some refused) = (refused, [])
  pursue r none = after_find (build_pr_title texts r) (build_pr_body texts r) [] (services.find [])

  abbrev pub after_validation :
      WorkflowResult → Option PrLifecycleResult → PrLifecycleResult × Trace
  after_validation r (some refused) = (refused, [])
  after_validation r none =
      if is_true r.no_code_outcome
      then close_no_code r
      else pursue r (validate_branches texts options r)

  -- `run`
  unfoldable pub run : WorkflowResult → PrLifecycleResult × Trace
  run r = after_validation r (validate texts options r)
