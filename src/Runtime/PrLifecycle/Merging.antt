-- ===== src/Runtime/PrLifecycle/Merging.antt =====
-- The loop of `PrLifecycleOrchestrator.run` of packages/runtime/src/pr-lifecycle.ts, and
-- `handleConflict`. Each call of a service is put on the trace with its answer, and a function
-- `after_…` goes on from the answer.
use Prim.Native.String.{◌++◌ as append}
use dark_kitchen_orchestrato.Prelude.{
  ℕ, suc, zero, String, Bool, true, not, ◌&&◌, ◌||◌, Option, none, some, Result, err, ok, List, [],
  ◌∷◌, ◌==◌, ltb, length, filter, if◌then◌else◌,
}
use dark_kitchen_orchestrato.Runtime.PrLifecycle.{
  TextApi, Services, PrLifecycleOptions, PrLifecycleResult, PullRequest, Check, checks_failed,
  merge_refused, merge_conflict, BaseMergeOutcome, base_merged, base_conflict, base_error, Answer,
  get_pull_request, poll_checks, merge_base, merge, Trace,
}
use dark_kitchen_orchestrato.Runtime.PrLifecycle.Texts.{is_set, safe_error_message}
use dark_kitchen_orchestrato.Runtime.PrLifecycle.Checks.{
  is_conflicting, has_passed, is_pending, check_of, stopped, required,
}

-- `failedChecks.join(', ')`
abbrev join : List String → String
join [] = ""
join (s ∷ []) = s
join (s ∷ t ∷ ss) = append s (append ", " (join (t ∷ ss)))

-- How one turn of the loop ends: with a result, with another turn and the head seen last, or with
-- the merged pull request.
pub data Turn : Type 0 where
  leave : PrLifecycleResult → Turn
  go_on : Option String → Turn
  merged_as : PullRequest → Turn

-- A text that is there differs from one that may be.
abbrev pub has_moved : String → Option String → Bool
has_moved head none = true
has_moved head (some last) = not (head == last)

abbrev pub head_of : Answer PullRequest → Option String
head_of (ok pr) = pr.head_sha
head_of (err e) = none

-- `more` tells that this is not the last turn, and `last` is `lastHeadSha`.
module _ (texts : TextApi) (options : PrLifecycleOptions) (services : Services)
    (pr : PullRequest) where
  abbrev pub after_base_merge : Option String → String → Trace → BaseMergeOutcome → Turn × Trace
  after_base_merge last message t base_merged = (go_on last, merge_base base_merged ∷ t)
  after_base_merge last message t base_conflict = (
    leave (
        stopped merge_conflict (some pr.id) (
          append "Merge conflict with "
            (append options.target_branch " could not be resolved automatically"))),
    merge_base base_conflict ∷ t,
  )
  after_base_merge last message t base_error =
      (leave (stopped merge_conflict (some pr.id) message), merge_base base_error ∷ t)

  -- `handleConflict`
  unfoldable pub handle_conflict : Bool → Option String → String → Trace → Turn × Trace
  handle_conflict more last message t =
      if is_set options.worktree_path && more
      then after_base_merge last message t (services.merge_base_into_branch t)
      else (leave (stopped merge_conflict (some pr.id) message), t)

  abbrev pub after_merge : Bool → Trace → String → Answer PullRequest → Turn × Trace
  after_merge more t head (ok p) = (merged_as p, merge head (ok p) ∷ t)
  after_merge more t head (err e) =
      let message = safe_error_message texts e in
      if texts.mentions_conflict message
      then handle_conflict more none message (merge head (err e) ∷ t)
      else (leave (stopped merge_refused (some pr.id) message), merge head (err e) ∷ t)

  abbrev no_head : String
  no_head = "SCM did not provide a PR head SHA for compare-and-merge protection"

  abbrev pub merge_at : Bool → Trace → Option String → Turn × Trace
  merge_at more t none = (leave (stopped merge_refused (some pr.id) no_head), t)
  merge_at more t (some head) =
      if head == ""
      then (leave (stopped merge_refused (some pr.id) no_head), t)
      else after_merge more t head (services.merge_pr t)

  -- After the checks passed: the head is read again, and the merge is bound to it.
  abbrev pub after_refresh : Bool → Trace → Answer PullRequest → Turn × Trace
  after_refresh more t (ok p) = merge_at more (get_pull_request (ok p) ∷ t) p.head_sha
  after_refresh more t (err e) = (
    leave (
        stopped merge_refused (some pr.id)
          (append "Could not refresh PR head before merge: " (safe_error_message texts e))),
    get_pull_request (err e) ∷ t,
  )

  -- After a check failed: another turn if the head has moved or a check is pending.
  abbrev pub after_failure : Bool → Option String → List String → List String → Option String → Turn
  after_failure more last failures pending none =
      leave (stopped checks_failed (some pr.id) (append "Required checks failed: " (join failures)))
  after_failure more last failures pending (some head) =
      if more && (has_moved head last || ltb 0 (length pending))
      then go_on (some head)
      else leave
          (stopped checks_failed (some pr.id) (append "Required checks failed: " (join failures)))

  abbrev pub failed_checks : List Check → List String
  failed_checks checks = filter (λ name. not (has_passed (check_of checks name))) (required options)

  abbrev pub pending_checks : List Check → List String
  pending_checks checks = filter (λ name. is_pending (check_of checks name)) (required options)

  abbrev pub after_poll : Bool → Option String → Trace → Answer (List Check) → Turn × Trace
  after_poll more last t (err e) = (
    leave (
        stopped checks_failed (some pr.id)
          (append "Could not poll SCM checks: " (safe_error_message texts e))),
    poll_checks (err e) ∷ t,
  )
  after_poll more last t (ok checks) =
      let t1 = poll_checks (ok checks) ∷ t in
      if ltb 0 (length (failed_checks checks))
      then (
        after_failure more last (failed_checks checks) (pending_checks checks)
            (head_of (services.get t1)),
        get_pull_request (services.get t1) ∷ t1,
      )
      else after_refresh more t1 (services.get t1)

  -- `currentPr.mergeability === 'conflicting'`, of the pull request read now or the one at hand.
  abbrev pub is_conflicting_now : Answer PullRequest → Bool
  is_conflicting_now (ok p) = is_conflicting p.mergeability
  is_conflicting_now (err e) = is_conflicting pr.mergeability

  -- One turn of the loop.
  unfoldable pub turn : Bool → Option String → Trace → Turn × Trace
  turn more last t =
      let a = services.get t in
      let t1 = get_pull_request a ∷ t in
      if is_conflicting_now a
      then handle_conflict more last
          (append "Merge conflict with " (append options.target_branch " detected")) t1
      else after_poll more last t1 (services.poll t1)

  -- What follows a turn.
  abbrev pub after_turn :
      (Option String → Trace → Result PrLifecycleResult PullRequest × Trace)
      → Turn × Trace
      → Result PrLifecycleResult PullRequest × Trace
  after_turn next (leave r, t) = (err r, t)
  after_turn next (go_on head, t) = next head t
  after_turn next (merged_as p, t) = (ok p, t)

  -- The loop with the turns that are left. Past the last one the pull request at hand counts as
  -- merged.
  unfoldable pub merge_loop :
      ℕ → Option String → Trace → Result PrLifecycleResult PullRequest × Trace
  merge_loop zero last t = (ok pr, t)
  merge_loop (suc n) last t = after_turn (merge_loop n) (turn (ltb 0 n) last t)
