-- ===== src/Runtime/PrLifecycle/Order.antt =====
-- The order of the effects of `PrLifecycleOrchestrator.run`.
use dark_kitchen_orchestrato.Prelude.{
  String, ◌≡◌, refl, Bool, true, false, Option, none, some, Result, err, ok, [], ◌∷◌, ltb, length,
  arith, Bool-cases, inl, inr,
}
use dark_kitchen_orchestrato.Runtime.PrLifecycle.{
  TextApi, Services, PrLifecycleOptions, PrLifecycleResult, WorkflowResult, PullRequest,
  PullRequestStatus, open_pr, merged_pr, closed_pr, Answer, find_pull_request, create_pull_request,
  update_body, verify_merged, close_task, delete_branch, Trace,
}
use dark_kitchen_orchestrato.Runtime.PrLifecycle.Checks.{
  is_true, required, validate, validate_branches,
}
use dark_kitchen_orchestrato.Runtime.PrLifecycle.Merging.{merge_loop}
use dark_kitchen_orchestrato.Runtime.PrLifecycle.Closing.{
  after_release, closed_result, release_with, clean_up, after_close, after_verify, finish,
  advance_at, advance, after_create, after_update, reuse_at, after_find, close_no_code,
  after_no_code_close, max_attempts, pursue, after_validation, run, no_code_result,
}
use dark_kitchen_orchestrato.Runtime.PrLifecycle.Texts.{build_pr_title, build_pr_body}
use dark_kitchen_orchestrato.Runtime.PrLifecycle.Safety.{
  IsMerged, MayClose, MayRelease, IsSafe, EndSafe, merge_loop-EndSafe,
}

max_attempts_pos : (options : PrLifecycleOptions) → ltb 0 (max_attempts options) ≡ true
max_attempts_pos options = ground arith

module _ (texts : TextApi) (options : PrLifecycleOptions) (services : Services)
    (r : WorkflowResult) where
  release_with-IsSafe :
      (o : Option (Trace → Answer (Unit {0}))) (x : PrLifecycleResult) (t : Trace)
      → MayRelease options r t
      → IsSafe options r t
      → IsSafe options r (release_with texts options services o x t).1
  unfolding release_with
  release_with-IsSafe none x t may h = h
  release_with-IsSafe (some f) x t may h = released (f t)
    where
      released :
          (a : Answer (Unit {0})) → IsSafe options r (after_release texts options services x t a).1
      released (ok u) = (may, h)
      released (err e) = (may, h)

  after_close-IsSafe :
      (pr : PullRequest) (t : Trace) (a : Answer (Unit {0}))
      → MayClose options r t
      → IsSafe options r t
      → IsSafe options r (after_close texts options services pr t a).1
  unfolding clean_up
  after_close-IsSafe pr t (err e) may h = (may, h)
  after_close-IsSafe pr t (ok u) may h =
      elim (Bool-cases (is_true options.delete_head_branch_after_merge)) [
        | inl q ↦ rw q (
            release_with-IsSafe services.release (closed_result texts options services pr)
              (delete_branch (services.delete (close_task (ok u) ∷ t)) ∷ close_task (ok u) ∷ t) tt
              (tt, (may, h)))
        | inr q ↦ rw q (
            release_with-IsSafe services.release (closed_result texts options services pr)
              (close_task (ok u) ∷ t) tt (may, h))
      ]

  after_verify-IsSafe :
      (pr : PullRequest) (t : Trace) (a : Answer Bool)
      → IsMerged options r pr.id t
      → IsSafe options r t
      → IsSafe options r (after_verify texts options services pr t a).1
  after_verify-IsSafe pr t (err e) m h = (m, h)
  after_verify-IsSafe pr t (ok false) m h = (m, h)
  after_verify-IsSafe pr t (ok true) m h =
      let t1 = verify_merged pr.id (ok true) ∷ t in
      after_close-IsSafe pr t1 (services.close t1) tt (m, h)

  finish-IsSafe :
      (x : Result PrLifecycleResult PullRequest × Trace)
      → EndSafe options r x
      → IsSafe options r (finish texts options services x).1
  unfolding finish
  finish-IsSafe (err y, t) h = h
  finish-IsSafe (ok p, t) h = after_verify-IsSafe p t (services.verify t) h.0 h.1

  advance_at-IsSafe :
      (pr : PullRequest) (t : Trace) (s : PullRequestStatus)
      → (s ≡ merged_pr → IsMerged options r pr.id t)
      → IsSafe options r t
      → IsSafe options r (advance_at texts options services pr t s).1
  advance_at-IsSafe pr t merged_pr m h = finish-IsSafe (ok pr, t) (m refl, h)
  advance_at-IsSafe pr t closed_pr m h = h
  advance_at-IsSafe pr t open_pr m h = elim (Bool-cases (is_true options.auto_merge)) [
    | inr q ↦ rw q h
    | inl q ↦ rw q (elim (Bool-cases (ltb 0 (length (required options)))) [
      | inr e ↦ rw e h
      | inl e ↦ rw e (
          finish-IsSafe (merge_loop texts options services pr (max_attempts options) none t) (
            merge_loop-EndSafe texts options services r q e pr (max_attempts options) none t
              (max_attempts_pos options) h))
    ])
  ]

  advance-IsSafe :
      (pr : PullRequest) (t : Trace)
      → (pr.status ≡ merged_pr → IsMerged options r pr.id t)
      → IsSafe options r t
      → IsSafe options r (advance texts options services pr t).1
  unfolding advance
  advance-IsSafe pr t m h = advance_at-IsSafe pr t pr.status m h

  after_create-IsSafe :
      (title body : String) (t : Trace) (a : Answer PullRequest)
      → IsSafe options r t
      → IsSafe options r (after_create texts options services title body t a).1
  after_create-IsSafe title body t (ok pr) h =
      advance-IsSafe pr (create_pull_request title body (ok pr) ∷ t) (λ m. (refl, m)) (tt, h)
  after_create-IsSafe title body t (err e) h = (tt, h)

  after_update-IsSafe :
      (pr : PullRequest) (body : String) (t : Trace) (a : Answer (Unit {0}))
      → pr.status ≡ open_pr
      → IsSafe options r t
      → IsSafe options r (after_update texts options services pr body t a).1
  after_update-IsSafe pr body t (ok u) o h =
      advance-IsSafe pr (update_body pr.id body (ok u) ∷ t) (λ m. absurd (cc)) (tt, h)
  after_update-IsSafe pr body t (err e) o h = (tt, h)

  reuse_at-IsSafe :
      (pr : PullRequest) (body : String) (s : PullRequestStatus)
      → pr.status ≡ s
      → IsSafe options r
          (reuse_at texts options services pr body (find_pull_request (ok (some pr)) ∷ []) s).1
  reuse_at-IsSafe pr body open_pr e =
      let t = find_pull_request (ok (some pr)) ∷ [] in
      after_update-IsSafe pr body t (services.update t) e (tt, tt)
  reuse_at-IsSafe pr body merged_pr e =
      advance-IsSafe pr (find_pull_request (ok (some pr)) ∷ []) (λ m. (refl, m)) (tt, tt)
  reuse_at-IsSafe pr body closed_pr e =
      advance-IsSafe pr (find_pull_request (ok (some pr)) ∷ []) (λ m. (refl, m)) (tt, tt)

  after_find-IsSafe :
      (title body : String) (a : Answer (Option PullRequest))
      → IsSafe options r (after_find texts options services title body [] a).1
  after_find-IsSafe title body (err e) = (tt, tt)
  after_find-IsSafe title body (ok none) =
      let t = find_pull_request (ok none) ∷ [] in
      after_create-IsSafe title body t (services.create t) (tt, tt)
  after_find-IsSafe title body (ok (some pr)) = reuse_at-IsSafe pr body pr.status refl

  pursue-IsSafe :
      (o : Option PrLifecycleResult) → IsSafe options r (pursue texts options services r o).1
  unfolding pursue
  pursue-IsSafe (some x) = tt
  pursue-IsSafe none =
      after_find-IsSafe (build_pr_title texts r) (build_pr_body texts r) (services.find [])

  after_no_code_close-IsSafe :
      (a : Answer (Unit {0}))
      → is_true r.no_code_outcome ≡ true
      → IsSafe options r (after_no_code_close texts options services [] a).1
  after_no_code_close-IsSafe (err e) q = (q, tt)
  after_no_code_close-IsSafe (ok u) q =
      release_with-IsSafe services.release (no_code_result texts options services)
        (close_task (ok u) ∷ []) tt (q, tt)

  close_no_code-IsSafe :
      is_true r.no_code_outcome ≡ true → IsSafe options r (close_no_code texts options services r).1
  unfolding close_no_code
  close_no_code-IsSafe q = elim (Bool-cases (ltb 0 (length r.commits))) [
    | inl e ↦ rw e tt
    | inr e ↦ rw e (after_no_code_close-IsSafe (services.close []) q)
  ]

  after_validation-IsSafe :
      (o : Option PrLifecycleResult)
      → IsSafe options r (after_validation texts options services r o).1
  after_validation-IsSafe (some x) = tt
  after_validation-IsSafe none = elim (Bool-cases (is_true r.no_code_outcome)) [
    | inl q ↦ rw q (close_no_code-IsSafe q)
    | inr q ↦ rw q (pursue-IsSafe (validate_branches texts options r))
  ]

  -- Every call is allowed by those before it. A merge is bound to the head that was read right after
  -- a poll in which all required checks passed, and is made only if merging is automatic and some
  -- check is required. The merge is verified right after it, or when the pull request was found or
  -- made as merged. The task is closed only once the merge is confirmed, or first of all if the
  -- workflow is meant to change no code. The branch and the worktree go only after the task is
  -- closed.
  pub run-IsSafe : IsSafe options r (run texts options services r).1
  unfolding run
  run-IsSafe = after_validation-IsSafe (validate texts options r)
