-- ===== src/Runtime/PrLifecycle/Growth.antt =====
-- What the turns of the loop of `PrLifecycleOrchestrator.run` put on the trace.
use dark_kitchen_orchestrato.Prelude.{
  ℕ, suc, String, ◌≡◌, refl, Bool, true, false, ◌&&◌, ◌||◌, ◌==◌, inl, inr, Option, none, some, err,
  ok, List, [], ◌∷◌, ltb, length, if◌then◌else◌, Bool-cases,
}
use dark_kitchen_orchestrato.Runtime.PrLifecycle.{
  TextApi, Services, PrLifecycleOptions, PrLifecycleResult, PullRequest, Answer, Check,
  BaseMergeOutcome, base_merged, base_conflict, base_error, Event, get_pull_request, poll_checks,
  merge_base, merge, Trace,
}
use dark_kitchen_orchestrato.Runtime.PrLifecycle.Texts.{is_set, safe_error_message}
use dark_kitchen_orchestrato.Runtime.PrLifecycle.Merging.{
  Turn, leave, handle_conflict, after_base_merge, after_merge, merge_at, after_refresh,
  after_failure, after_poll, failed_checks, pending_checks, head_of, has_moved, is_conflicting_now,
  turn,
}

-- Calls of the loop that change nothing at the pull request but its branch.
abbrev pub is_quiet : Event → Bool
is_quiet (get_pull_request a) = true
is_quiet (poll_checks a) = true
is_quiet (merge_base a) = true
is_quiet _ = false

abbrev pub is_merge : Event → Bool
is_merge (merge head a) = true
is_merge _ = false

abbrev pub count : (Event → Bool) → Trace → ℕ
count p [] = 0
count p (e ∷ t) = let rest = count p t in if p e then suc rest else rest

-- The second trace has the first one below quiet calls and, with the index `true`, one merge.
pub data Grows (t : Trace) : Bool → Trace → Type 0 where
  here : Grows t false t
  quiet : (b : Bool) (e : Event) (u : Trace) → is_quiet e ≡ true → Grows t b u → Grows t b (e ∷ u)
  merging :
      (head : String) (a : Answer PullRequest) (u : Trace)
      → Grows t false u
      → Grows t true (merge head a ∷ u)

-- A result that reports no effect.
abbrev pub IsPlain : PrLifecycleResult → Type 0
IsPlain r = (r.is_merged ≡ false) × (r.tracker_closed ≡ false) × (r.worktree_released ≡ false)

abbrev pub PlainTurn : Turn → Type 0
PlainTurn (leave r) = IsPlain r
PlainTurn _ = Unit

abbrev pub Fine : Trace → Turn × Trace → Type 0
Fine t x = PlainTurn x.0 × ((b : Bool) × Grows t b x.1)

module _ (texts : TextApi) (options : PrLifecycleOptions) (services : Services)
    (pr : PullRequest) where
  handle_conflict-Fine :
      (more : Bool) (last : Option String) (message : String) (t u : Trace) (b : Bool)
      → Grows t b u
      → Fine t (handle_conflict texts options services pr more last message u)
  unfolding handle_conflict
  handle_conflict-Fine more last message t u b g =
      elim (Bool-cases (is_set options.worktree_path && more)) [
        | inl e ↦ rw e (based (services.merge_base_into_branch u))
        | inr e ↦ rw e ((refl, refl, refl), (b, g))
      ]
    where
      based :
          (a : BaseMergeOutcome)
          → Fine t (after_base_merge texts options services pr last message u a)
      based base_merged = (tt, (b, quiet b (merge_base base_merged) u refl g))
      based base_conflict = ((refl, refl, refl), (b, quiet b (merge_base base_conflict) u refl g))
      based base_error = ((refl, refl, refl), (b, quiet b (merge_base base_error) u refl g))

  merge_at-Fine :
      (more : Bool) (t u : Trace) (head : Option String)
      → Grows t false u
      → Fine t (merge_at texts options services pr more u head)
  merge_at-Fine more t u none g = ((refl, refl, refl), (false, g))
  merge_at-Fine more t u (some head) g = elim (Bool-cases (head == "")) [
    | inl q ↦ rw q ((refl, refl, refl), (false, g))
    | inr q ↦ rw q (tried (services.merge_pr u))
  ]
    where
      tried :
          (a : Answer PullRequest) → Fine t (after_merge texts options services pr more u head a)
      tried (ok p) = (tt, (true, merging head (ok p) u g))
      tried (err e) = elim (Bool-cases (texts.mentions_conflict (safe_error_message texts e))) [
        | inl q ↦ rw q (
            handle_conflict-Fine more none (safe_error_message texts e) t (merge head (err e) ∷ u)
              true (merging head (err e) u g))
        | inr q ↦ rw q ((refl, refl, refl), (true, merging head (err e) u g))
      ]

  after_refresh-Fine :
      (more : Bool) (t u : Trace) (a : Answer PullRequest)
      → Grows t false u
      → Fine t (after_refresh texts options services pr more u a)
  after_refresh-Fine more t u (err e) g =
      ((refl, refl, refl), (false, quiet false (get_pull_request (err e)) u refl g))
  after_refresh-Fine more t u (ok p) g =
      merge_at-Fine more t (get_pull_request (ok p) ∷ u) p.head_sha
        (quiet false (get_pull_request (ok p)) u refl g)

  after_failure-PlainTurn :
      (more : Bool) (last : Option String) (failures pending : List String) (head : Option String)
      → PlainTurn (after_failure texts options services pr more last failures pending head)
  after_failure-PlainTurn more last failures pending none = (refl, refl, refl)
  after_failure-PlainTurn more last failures pending (some head) =
      elim (Bool-cases (more && (has_moved head last || ltb 0 (length pending)))) [
        | inl q ↦ rw q tt
        | inr q ↦ rw q (refl, refl, refl)
      ]

  after_poll-Fine :
      (more : Bool) (last : Option String) (t u : Trace) (a : Answer (List Check))
      → Grows t false u
      → Fine t (after_poll texts options services pr more last u a)
  after_poll-Fine more last t u (err e) g =
      ((refl, refl, refl), (false, quiet false (poll_checks (err e)) u refl g))
  after_poll-Fine more last t u (ok checks) g =
      let u1 = poll_checks (ok checks) ∷ u in
      let g1 = quiet false (poll_checks (ok checks)) u refl g in
      elim (Bool-cases (ltb 0 (length (failed_checks texts options services pr checks)))) [
        | inl q ↦ rw q (
          after_failure-PlainTurn more last (failed_checks texts options services pr checks)
              (pending_checks texts options services pr checks) (head_of (services.get u1)),
          (false, quiet false (get_pull_request (services.get u1)) u1 refl g1),
        )
        | inr q ↦ rw q (after_refresh-Fine more t u1 (services.get u1) g1)
      ]

  pub turn-Fine :
      (more : Bool) (last : Option String) (t : Trace)
      → Fine t (turn texts options services pr more last t)
  unfolding turn
  turn-Fine more last t =
      let u = get_pull_request (services.get t) ∷ t in
      let g = quiet false (get_pull_request (services.get t)) t refl here in
      elim (Bool-cases (is_conflicting_now texts options services pr (services.get t))) [
        | inl q ↦ rw q (handle_conflict-Fine more last _ t u false g)
        | inr q ↦ rw q (after_poll-Fine more last t u (services.poll u) g)
      ]
