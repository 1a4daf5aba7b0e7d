-- ===== src/Runtime/PrLifecycle/Reports.antt =====
-- What `PrLifecycleOrchestrator.run` reports is what was done, and how often it merges.
use dark_kitchen_orchestrato.Prelude.{
  ℕ, ◌+◌, ◌≤◌, String, ◌≡◌, refl, sym, ◌∙◌, Bool, true, false, inl, inr, Option, none, some, Result,
  err, ok, [], ◌∷◌, ltb, length, any, arith, Bool-cases,
}
use dark_kitchen_orchestrato.Runtime.PrLifecycle.{
  TextApi, Services, PrLifecycleOptions, PrLifecycleResult, WorkflowResult, PullRequest,
  PullRequestStatus, open_pr, merged_pr, closed_pr, Answer, find_pull_request, create_pull_request,
  update_body, verify_merged, close_task, delete_branch, Trace,
}
use dark_kitchen_orchestrato.Runtime.PrLifecycle.Texts.{build_pr_title, build_pr_body}
use dark_kitchen_orchestrato.Runtime.PrLifecycle.Checks.{
  is_true, required, validate, validate_branches,
}
use dark_kitchen_orchestrato.Runtime.PrLifecycle.Merging.{merge_loop}
use dark_kitchen_orchestrato.Runtime.PrLifecycle.Closing.{
  after_release, closed_result, no_code_result, release_with, clean_up, after_close, after_verify,
  finish, advance_at, advance, after_create, after_update, reuse_at, after_find, close_no_code,
  after_no_code_close, max_attempts, pursue, after_validation, run,
}
use dark_kitchen_orchestrato.Runtime.PrLifecycle.Growth.{is_merge, count, IsPlain}
use dark_kitchen_orchestrato.Runtime.PrLifecycle.Rounds.{
  confirms, closes, releases, Untouched, AtMost, EndFine, merge_loop-EndFine,
}

-- The flags of a result say what is on the trace.
abbrev pub Reports : PrLifecycleResult × Trace → Type 0
Reports x =
    (x.0.is_merged ≡ any confirms x.1)
    × (x.0.tracker_closed ≡ any closes x.1)
    × (x.0.worktree_released ≡ any releases x.1)

-- A report that is true, of at most `m` merges.
abbrev Good : ℕ → PrLifecycleResult × Trace → Type 0
Good m x = Reports x × AtMost m x.1

module _ (texts : TextApi) (options : PrLifecycleOptions) (services : Services) (r : WorkflowResult)
    (m : ℕ) where
  plain-Good :
      (x : PrLifecycleResult) (t : Trace) → IsPlain x → Untouched t → AtMost m t → Good m (x, t)
  plain-Good x t p h c = ((p.0 ∙ sym h.0, p.1 ∙ sym h.1, p.2 ∙ sym h.2), c)

  release_with-Good :
      (o : Option (Trace → Answer (Unit {0}))) (x : PrLifecycleResult) (t : Trace)
      → x.worktree_released ≡ false
      → Good m (x, t)
      → Good m (release_with texts options services o x t)
  unfolding release_with
  release_with-Good none x t e h = h
  release_with-Good (some f) x t e h = released (f t)
    where
      released : (a : Answer (Unit {0})) → Good m (after_release texts options services x t a)
      released (ok u) = ((h.0.0, h.0.1, refl), h.1)
      released (err message) = h

  after_close-Good :
      (pr : PullRequest) (t : Trace) (a : Answer (Unit {0}))
      → any confirms t ≡ true
      → any closes t ≡ false
      → any releases t ≡ false
      → AtMost m t
      → Good m (after_close texts options services pr t a)
  unfolding clean_up
  after_close-Good pr t (err e) c k l h = ((sym c, sym k, sym l), h)
  after_close-Good pr t (ok u) c k l h =
      elim (Bool-cases (is_true options.delete_head_branch_after_merge)) [
        | inl q ↦ rw q (
            release_with-Good services.release (closed_result texts options services pr)
              (delete_branch (services.delete (close_task (ok u) ∷ t)) ∷ close_task (ok u) ∷ t) refl
              ((sym c, refl, sym l), h))
        | inr q ↦ rw q (
            release_with-Good services.release (closed_result texts options services pr)
              (close_task (ok u) ∷ t) refl ((sym c, refl, sym l), h))
      ]

  after_verify-Good :
      (pr : PullRequest) (t : Trace) (a : Answer Bool)
      → Untouched t
      → AtMost m t
      → Good m (after_verify texts options services pr t a)
  after_verify-Good pr t (err e) h c = ((sym h.0, sym h.1, sym h.2), c)
  after_verify-Good pr t (ok false) h c = ((sym h.0, sym h.1, sym h.2), c)
  after_verify-Good pr t (ok true) h c =
      let t1 = verify_merged pr.id (ok true) ∷ t in
      after_close-Good pr t1 (services.close t1) refl h.1 h.2 c

  finish-Good :
      (x : Result PrLifecycleResult PullRequest × Trace)
      → EndFine m x
      → Good m (finish texts options services x)
  unfolding finish
  finish-Good (err y, t) h = plain-Good y t h.0 h.1 h.2
  finish-Good (ok p, t) h = after_verify-Good p t (services.verify t) h.0 h.1

  advance_at-Good :
      (pr : PullRequest) (t : Trace) (s : PullRequestStatus)
      → Untouched t
      → count is_merge t + max_attempts options ≤ m
      → Good m (advance_at texts options services pr t s)
  advance_at-Good pr t merged_pr h c = finish-Good (ok pr, t) (h, omega arith)
  advance_at-Good pr t closed_pr h c = ((sym h.0, sym h.1, sym h.2), omega arith)
  advance_at-Good pr t open_pr h c = elim (Bool-cases (is_true options.auto_merge)) [
    | inr q ↦ rw q ((sym h.0, sym h.1, sym h.2), omega arith)
    | inl q ↦ rw q (elim (Bool-cases (ltb 0 (length (required options)))) [
      | inr e ↦ rw e ((sym h.0, sym h.1, sym h.2), omega arith)
      | inl e ↦ rw e (
          finish-Good (merge_loop texts options services pr (max_attempts options) none t)
            (merge_loop-EndFine texts options services pr m (max_attempts options) none t h c))
    ])
  ]

module _ (texts : TextApi) (options : PrLifecycleOptions) (services : Services)
    (r : WorkflowResult) where
  abbrev IsGood : PrLifecycleResult × Trace → Type 0
  IsGood x = Good (max_attempts options) x

  advance-Good :
      (pr : PullRequest) (t : Trace)
      → Untouched t
      → count is_merge t ≡ 0
      → IsGood (advance texts options services pr t)
  unfolding advance
  advance-Good pr t h c =
      advance_at-Good texts options services r (max_attempts options) pr t pr.status h
        (omega (arith, c))

  after_create-Good :
      (title body : String) (a : Answer PullRequest)
      → IsGood (after_create texts options services title body (find_pull_request (ok none) ∷ []) a)
  after_create-Good title body (ok pr) =
      advance-Good pr (create_pull_request title body (ok pr) ∷ find_pull_request (ok none) ∷ [])
        (refl, refl, refl) refl
  after_create-Good title body (err e) = ((refl, refl, refl), omega arith)

  reuse_at-Good :
      (pr : PullRequest) (body : String) (s : PullRequestStatus)
      → IsGood (reuse_at texts options services pr body (find_pull_request (ok (some pr)) ∷ []) s)
  reuse_at-Good pr body open_pr = updated (services.update (find_pull_request (ok (some pr)) ∷ []))
    where
      updated :
          (a : Answer (Unit {0}))
          → IsGood (
              after_update texts options services pr body (find_pull_request (ok (some pr)) ∷ []) a)
      updated (ok u) =
          advance-Good pr (update_body pr.id body (ok u) ∷ find_pull_request (ok (some pr)) ∷ [])
            (refl, refl, refl) refl
      updated (err e) = ((refl, refl, refl), omega arith)
  reuse_at-Good pr body merged_pr =
      advance-Good pr (find_pull_request (ok (some pr)) ∷ []) (refl, refl, refl) refl
  reuse_at-Good pr body closed_pr =
      advance-Good pr (find_pull_request (ok (some pr)) ∷ []) (refl, refl, refl) refl

  after_find-Good :
      (title body : String) (a : Answer (Option PullRequest))
      → IsGood (after_find texts options services title body [] a)
  after_find-Good title body (err e) = ((refl, refl, refl), omega arith)
  after_find-Good title body (ok none) =
      after_create-Good title body (services.create (find_pull_request (ok none) ∷ []))
  after_find-Good title body (ok (some pr)) = reuse_at-Good pr body pr.status

  -- A result of the checks at the start.
  refused-Good : (x : PrLifecycleResult) → IsPlain x → IsGood (x, [])
  refused-Good x p =
      plain-Good texts options services r (max_attempts options) x [] p (refl, refl, refl)
        (omega arith)

  validate-IsPlain :
      (o : Option PrLifecycleResult)
      → validate texts options r ≡ o
      → (x : PrLifecycleResult) → o ≡ some x
      → IsPlain x
  unfolding validate
  validate-IsPlain o e x f = ground arith

  validate_branches-IsPlain :
      (o : Option PrLifecycleResult)
      → validate_branches texts options r ≡ o
      → (x : PrLifecycleResult) → o ≡ some x
      → IsPlain x
  unfolding validate_branches
  validate_branches-IsPlain o e x f = ground arith

  pursue-Good :
      (o : Option PrLifecycleResult)
      → validate_branches texts options r ≡ o
      → IsGood (pursue texts options services r o)
  unfolding pursue
  pursue-Good (some x) e = refused-Good x (validate_branches-IsPlain (some x) e x refl)
  pursue-Good none e =
      after_find-Good (build_pr_title texts r) (build_pr_body texts r) (services.find [])

  after_no_code_close-Good :
      (a : Answer (Unit {0})) → IsGood (after_no_code_close texts options services [] a)
  after_no_code_close-Good (err e) = ((refl, refl, refl), omega arith)
  after_no_code_close-Good (ok u) =
      release_with-Good texts options services r (max_attempts options) services.release
        (no_code_result texts options services) (close_task (ok u) ∷ []) refl
        ((refl, refl, refl), omega arith)

  close_no_code-Good : IsGood (close_no_code texts options services r)
  unfolding close_no_code
  close_no_code-Good = elim (Bool-cases (ltb 0 (length r.commits))) [
    | inl e ↦ rw e ((refl, refl, refl), omega arith)
    | inr e ↦ rw e (after_no_code_close-Good (services.close []))
  ]

  after_validation-Good :
      (o : Option PrLifecycleResult)
      → validate texts options r ≡ o
      → IsGood (after_validation texts options services r o)
  after_validation-Good (some x) e = refused-Good x (validate-IsPlain (some x) e x refl)
  after_validation-Good none e = elim (Bool-cases (is_true r.no_code_outcome)) [
    | inl q ↦ rw q close_no_code-Good
    | inr q ↦ rw q (pursue-Good (validate_branches texts options r) refl)
  ]

  -- The flags of the result say what was done: it reports a merge exactly if the source control
  -- confirmed one, a closed task exactly if the tracker closed it, and a released worktree exactly
  -- if its release succeeded.
  pub run-Reports : Reports (run texts options services r)
  unfolding run
  run-Reports = (after_validation-Good (validate texts options r) refl).0

  -- A merge is tried at most `max_attempts` times, whatever the services answer.
  count_merges-run : count is_merge (run texts options services r).1 ≤ max_attempts options
  unfolding run
  count_merges-run = (after_validation-Good (validate texts options r) refl).1
