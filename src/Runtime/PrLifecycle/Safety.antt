-- ===== src/Runtime/PrLifecycle/Safety.antt =====
-- In which order the effects of `PrLifecycleOrchestrator.run` may stand on the trace.
use dark_kitchen_orchestrato.Prelude.{
  ℕ, suc, zero, String, ◌≡◌, refl, Bool, true, false, not, ◌&&◌, ◌||◌, ◌==◌, inl, inr, Option, none,
  some, Result, err, ok, List, [], ◌∷◌, ltb, length, all, filter, arith, Bool-cases,
}
use dark_kitchen_orchestrato.Runtime.PrLifecycle.{
  TextApi, Services, PrLifecycleOptions, PrLifecycleResult, WorkflowResult, PullRequest, merged_pr,
  Answer, Check, BaseMergeOutcome, base_merged, base_conflict, base_error, Event, find_pull_request,
  create_pull_request, get_pull_request, poll_checks, merge, verify_merged, close_task,
  delete_branch, release_worktree, Trace,
}
use dark_kitchen_orchestrato.Runtime.PrLifecycle.Texts.{is_set, safe_error_message}
use dark_kitchen_orchestrato.Runtime.PrLifecycle.Checks.{is_true, has_passed, check_of, required}
use dark_kitchen_orchestrato.Runtime.PrLifecycle.Merging.{
  Turn, leave, go_on, merged_as, handle_conflict, after_base_merge, after_merge, merge_at,
  after_refresh, after_failure, after_poll, failed_checks, pending_checks, after_turn, head_of,
  has_moved, is_conflicting_now, turn, merge_loop,
}

module _ (options : PrLifecycleOptions) (r : WorkflowResult) where
  -- A merge at `head` follows a refresh that read this head, and that follows a poll in which every
  -- required check passed; merging is automatic and some check is required.
  abbrev pub IsProven : String → Trace → Type 0
  IsProven head (get_pull_request (ok p) ∷ poll_checks (ok checks) ∷ t) =
      (p.head_sha ≡ some head)
      × (all (λ name. has_passed (check_of checks name)) (required options) ≡ true)
      × (is_true options.auto_merge ≡ true)
      × (ltb 0 (length (required options)) ≡ true)
  IsProven head _ = ⊥

  -- The pull request of this identifier was merged just now, or was found to be merged.
  abbrev pub IsMerged : String → Trace → Type 0
  IsMerged id (merge head (ok p) ∷ t) = p.id ≡ id
  IsMerged id (find_pull_request (ok (some p)) ∷ t) = (p.id ≡ id) × (p.status ≡ merged_pr)
  IsMerged id (create_pull_request title body (ok p) ∷ t) = (p.id ≡ id) × (p.status ≡ merged_pr)
  IsMerged id _ = ⊥

  -- The task may be closed: its merge is confirmed, or its workflow changes no code.
  abbrev pub MayClose : Trace → Type 0
  MayClose [] = is_true r.no_code_outcome ≡ true
  MayClose (verify_merged id (ok true) ∷ t) = Unit
  MayClose _ = ⊥

  abbrev pub IsClosed : Trace → Type 0
  IsClosed (close_task (ok u) ∷ t) = Unit
  IsClosed _ = ⊥

  abbrev pub MayRelease : Trace → Type 0
  MayRelease (close_task (ok u) ∷ t) = Unit
  MayRelease (delete_branch a ∷ t) = IsClosed t
  MayRelease _ = ⊥

  abbrev pub IsAllowed : Event → Trace → Type 0
  IsAllowed (merge head a) t = IsProven head t
  IsAllowed (verify_merged id a) t = IsMerged id t
  IsAllowed (close_task a) t = MayClose t
  IsAllowed (delete_branch a) t = IsClosed t
  IsAllowed (release_worktree a) t = MayRelease t
  IsAllowed _ t = Unit

  -- Each call is allowed by those before it.
  abbrev pub IsSafe : Trace → Type 0
  IsSafe [] = Unit
  IsSafe (e ∷ t) = IsAllowed e t × IsSafe t

  -- What the loop comes to.
  abbrev pub EndSafe : Result PrLifecycleResult PullRequest × Trace → Type 0
  EndSafe (err x, t) = IsSafe t
  EndSafe (ok p, t) = IsMerged p.id t × IsSafe t

all_of_none :
    (p : String → Bool) (xs : List String)
    → ltb 0 (length (filter (λ x. not (p x)) xs)) ≡ false
    → all p xs ≡ true
all_of_none p [] h = refl
all_of_none p (x ∷ xs) h = ground (arith, all_of_none p xs)

module _ (texts : TextApi) (options : PrLifecycleOptions) (services : Services) (r : WorkflowResult)
    (automatic : is_true options.auto_merge ≡ true)
    (some_required : ltb 0 (length (required options)) ≡ true) (pr : PullRequest) where
  -- A turn keeps the trace safe, goes on only before the last turn, and reports a merge only if
  -- there was one.
  abbrev TurnSafe : Bool → Turn × Trace → Type 0
  TurnSafe more (leave x, t) = IsSafe options r t
  TurnSafe more (go_on head, t) = (more ≡ true) × IsSafe options r t
  TurnSafe more (merged_as p, t) = IsMerged options r p.id t × IsSafe options r t

  handle_conflict-TurnSafe :
      (more : Bool) (last : Option String) (message : String) (t : Trace)
      → IsSafe options r t
      → TurnSafe more (handle_conflict texts options services pr more last message t)
  unfolding handle_conflict
  handle_conflict-TurnSafe more last message t h =
      elim (Bool-cases (is_set options.worktree_path && more)) [
        | inl e ↦ rw e (merging (services.merge_base_into_branch t) (ground (arith, e)))
        | inr e ↦ rw e h
      ]
    where
      merging :
          (a : BaseMergeOutcome)
          → more ≡ true
          → TurnSafe more (after_base_merge texts options services pr last message t a)
      merging base_merged e = (e, (tt, h))
      merging base_conflict e = (tt, h)
      merging base_error e = (tt, h)

  after_merge-TurnSafe :
      (more : Bool) (t : Trace) (head : String) (a : Answer PullRequest)
      → IsProven options r head t
      → IsSafe options r t
      → TurnSafe more (after_merge texts options services pr more t head a)
  after_merge-TurnSafe more t head (ok p) proven h = (refl, (proven, h))
  after_merge-TurnSafe more t head (err e) proven h =
      elim (Bool-cases (texts.mentions_conflict (safe_error_message texts e))) [
        | inl q ↦ rw q (
            handle_conflict-TurnSafe more none (safe_error_message texts e) (merge head (err e) ∷ t)
              (proven, h))
        | inr q ↦ rw q (proven, h)
      ]

  merge_at-TurnSafe :
      (more : Bool) (t : Trace) (checks : List Check) (p : PullRequest) (head : Option String)
      → p.head_sha ≡ head
      → all (λ name. has_passed (check_of checks name)) (required options) ≡ true
      → IsSafe options r t
      → TurnSafe more (
          merge_at texts options services pr more
            (get_pull_request (ok p) ∷ poll_checks (ok checks) ∷ t)
            head)
  merge_at-TurnSafe more t checks p none e passed h = (tt, (tt, h))
  merge_at-TurnSafe more t checks p (some head) e passed h = elim (Bool-cases (head == "")) [
    | inl q ↦ rw q (tt, (tt, h))
    | inr q ↦ rw q (
        let t1 = get_pull_request (ok p) ∷ poll_checks (ok checks) ∷ t in
        after_merge-TurnSafe more t1 head (services.merge_pr t1)
          (e, passed, automatic, some_required) (tt, (tt, h)))
  ]

  after_refresh-TurnSafe :
      (more : Bool) (t : Trace) (checks : List Check) (a : Answer PullRequest)
      → all (λ name. has_passed (check_of checks name)) (required options) ≡ true
      → IsSafe options r t
      → TurnSafe more (after_refresh texts options services pr more (poll_checks (ok checks) ∷ t) a)
  after_refresh-TurnSafe more t checks (err e) passed h = (tt, (tt, h))
  after_refresh-TurnSafe more t checks (ok p) passed h =
      merge_at-TurnSafe more t checks p p.head_sha refl passed h

  after_failure-TurnSafe :
      (more : Bool) (last : Option String) (failures pending : List String) (head : Option String)
      (t : Trace)
      → IsSafe options r t
      → TurnSafe more (after_failure texts options services pr more last failures pending head, t)
  after_failure-TurnSafe more last failures pending none t h = h
  after_failure-TurnSafe more last failures pending (some head) t h =
      elim (Bool-cases (more && (has_moved head last || ltb 0 (length pending)))) [
        | inl q ↦ rw q (ground (arith, q), h)
        | inr q ↦ rw q h
      ]

  after_poll-TurnSafe :
      (more : Bool) (last : Option String) (t : Trace) (a : Answer (List Check))
      → IsSafe options r t
      → TurnSafe more (after_poll texts options services pr more last t a)
  after_poll-TurnSafe more last t (err e) h = (tt, h)
  after_poll-TurnSafe more last t (ok checks) h =
      let t1 = poll_checks (ok checks) ∷ t in
      elim (Bool-cases (ltb 0 (length (failed_checks texts options services pr checks)))) [
        | inl q ↦ rw q (
            after_failure-TurnSafe more last (failed_checks texts options services pr checks)
              (pending_checks texts options services pr checks) (head_of (services.get t1))
              (get_pull_request (services.get t1) ∷ t1) (tt, (tt, h)))
        | inr q ↦ rw q (
            after_refresh-TurnSafe more t checks (services.get t1)
              (all_of_none (λ name. has_passed (check_of checks name)) (required options) q) h)
      ]

  turn-TurnSafe :
      (more : Bool) (last : Option String) (t : Trace)
      → IsSafe options r t
      → TurnSafe more (turn texts options services pr more last t)
  unfolding turn
  turn-TurnSafe more last t h =
      elim (Bool-cases (is_conflicting_now texts options services pr (services.get t))) [
        | inl q ↦
            rw q
              (handle_conflict-TurnSafe more last _ (get_pull_request (services.get t) ∷ t) (tt, h))
        | inr q ↦
            rw q (after_poll-TurnSafe more last (get_pull_request (services.get t) ∷ t) _ (tt, h))
      ]

  after_turn-EndSafe :
      (more : Bool) (next : Option String → Trace → Result PrLifecycleResult PullRequest × Trace)
      (x : Turn × Trace)
      → TurnSafe more x
      → ((head : Option String) (t : Trace)
          → more ≡ true
          → IsSafe options r t
          → EndSafe options r (next head t))
      → EndSafe options r (after_turn texts options services pr next x)
  after_turn-EndSafe more next (leave x, t) h rest = h
  after_turn-EndSafe more next (go_on head, t) h rest = rest head t h.0 h.1
  after_turn-EndSafe more next (merged_as p, t) h rest = h

  pub merge_loop-EndSafe :
      (n : ℕ) (last : Option String) (t : Trace)
      → ltb 0 n ≡ true
      → IsSafe options r t
      → EndSafe options r (merge_loop texts options services pr n last t)
  unfolding merge_loop
  merge_loop-EndSafe zero last t pos h = absurd (cc)
  merge_loop-EndSafe (suc n) last t pos h =
      after_turn-EndSafe (ltb 0 n) (merge_loop texts options services pr n)
        (turn texts options services pr (ltb 0 n) last t) (turn-TurnSafe (ltb 0 n) last t h)
        (λ head u more k. merge_loop-EndSafe n head u more k)
