-- ===== src/Verification/Service.antt =====
-- `DurableVerificationService` of packages/verification/src/durable-service.ts: the runs that it
-- keeps and the operations on them. The identifier and the time that an operation draws are
-- arguments; reading and writing the state file is left out, as is the parser of task bodies.
pub mod Keeping
pub mod Soundness
pub mod Finality
pub mod Requests
use dark_kitchen_orchestrato.Prelude.{
  ℕ, ◌+◌, String, Bool, true, false, not, ◌&&◌, Option, none, some, or_else, List, [], ◌∷◌, Result,
  ok, err, guard, ◌>>=◌, ◌>>◌, ◌==◌, leb, find, filter, all, if◌then◌else◌,
}
use dark_kitchen_orchestrato.Prelude.Maps
use dark_kitchen_orchestrato.Core.Ids.{DomainError, create_stable_id}
use dark_kitchen_orchestrato.Verification.Runs.{
  VerificationRunState, pending, running, passed, failed, blocked, cancelled,
  VerificationCriterionResult, VerificationRun, create_run, is_terminal, is_pass, Order, sort_runs,
  last_of,
}

pub data ServiceError : Type 0 where
  bad_task : DomainError → ServiceError
  no_requirement : String → ServiceError
  unknown_profile unknown_run : String → ServiceError
  cannot_retry cannot_start cannot_complete : VerificationRunState → ServiceError
  exhausted : String → ℕ → ServiceError
  not_all_pass : ServiceError

-- What the service reads of a `VerificationProfile`: its id and `retryPolicy?.maxAttempts`.
pub record Profile : Type 0 where
  pub id : String
  pub max_attempts : Option ℕ

-- What an operation comes to: a run as it stands, or a run that `runs.set` stores under a key.
pub data Answer : Type 0 where
  kept : VerificationRun → Answer
  stored : String → VerificationRun → Answer

-- The map `runs`.
abbrev pub Runs : Type 0
Runs = List (String × VerificationRun)

unfoldable pub settle :
    Runs → Result ServiceError Answer → Runs × Result ServiceError VerificationRun
settle s (ok (kept r)) = (s, ok r)
settle s (ok (stored k r)) = (Maps.put k r s, ok r)
settle s (err e) = (s, err e)

-- `requireRun`
abbrev pub require_run : String → Runs → Result ServiceError VerificationRun
require_run id s = elim (Maps.get id s) [ none ↦ err (unknown_run id) | some r ↦ ok r ]

-- `['pending', 'running', 'passed'].includes(state)`
abbrev pub is_reusable : VerificationRunState → Bool
is_reusable pending = true
is_reusable running = true
is_reusable passed = true
is_reusable _ = false

-- `['failed', 'blocked', 'cancelled'].includes(state)`
abbrev pub is_retriable : VerificationRunState → Bool
is_retriable failed = true
is_retriable blocked = true
is_retriable cancelled = true
is_retriable _ = false

-- `['passed', 'failed', 'blocked'].includes(state)`
abbrev pub is_verdict : VerificationRunState → Bool
is_verdict passed = true
is_verdict failed = true
is_verdict blocked = true
is_verdict _ = false

abbrev pub is_passed : VerificationRunState → Bool
is_passed passed = true
is_passed _ = false

-- `requireProfile`
abbrev pub require_profile : List Profile → String → Result ServiceError Profile
require_profile profiles id = elim (find (λ p. p.id == id) profiles) [
  | none ↦ err (unknown_profile id)
  | some p ↦ ok p
]

-- `profile.retryPolicy?.maxAttempts ?? 1`
abbrev pub max_attempts_of : Profile → ℕ
max_attempts_of p = or_else p.max_attempts 1

abbrev pub task_of : String → Result ServiceError String
task_of task = elim (create_stable_id task) [ ok t ↦ ok t | err e ↦ err (bad_task e) ]

module _ (profiles : List Profile) (required_profile : String → Option String)
    (locale_compare : String → String → Order) where
  -- `input.profileId ?? inspected.requirements[0]?.profileId`, which must not be empty.
  abbrev pub profile_for : String → Option String → Result ServiceError String
  profile_for task profile_id =
      let asked : Option String = elim profile_id [
        | some p ↦ some p
        | none ↦ required_profile task
      ] in
      elim asked [
        | none ↦ err (no_requirement task)
        | some p ↦ if p == "" then err (no_requirement task) else ok p
      ]

  -- The newest run of a task under a profile.
  abbrev pub newest : String → String → Runs → Option VerificationRun
  newest task p s = last_of (
      sort_runs locale_compare
        (filter (λ r. (r.task_id == task) && (r.profile_id == p)) (Maps.values s)))

  abbrev pub reuse : Option VerificationRun → VerificationRun → Answer
  reuse none r = stored r.id r
  reuse (some old) r = if is_reusable old.state then kept old else stored r.id r

  -- `request`
  unfoldable pub request :
      String → Option String → String → String → Runs → Result ServiceError Answer
  request task profile_id id now s = do
    t ← task_of task
    p ← profile_for task profile_id
    require_profile profiles p
    ok (reuse (newest t p s) (create_run id now t p 1))

  -- `retry`
  unfoldable pub retry : String → String → String → Runs → Result ServiceError Answer
  retry run_id id now s = do
    prior ← require_run run_id s
    guard (is_retriable prior.state) (cannot_retry prior.state)
    profile ← require_profile profiles prior.profile_id
    guard (not (leb (max_attempts_of profile) prior.attempt))
        (exhausted prior.profile_id (max_attempts_of profile))
    ok (stored id (create_run id now prior.task_id prior.profile_id (prior.attempt + 1)))

-- `cancel`
unfoldable pub cancel : String → String → Runs → Result ServiceError Answer
cancel run_id now s = do
  run ← require_run run_id s
  if is_terminal run.state
      then ok (kept run)
      else ok (stored run_id (record run { state = cancelled; completed_at = some now }))

-- `markRunning`
unfoldable pub mark_running : String → Runs → Result ServiceError Answer
mark_running run_id s = do
  run ← require_run run_id s
  elim run.state [
    | running ↦ ok (kept run)
    | pending ↦ ok (stored run_id (record run { state = running }))
    | other ↦ err (cannot_start other)
  ]

-- The fields that the call of `update` in `complete` replaces; an empty message leaves the old one.
abbrev pub completed_run :
    VerificationRunState
    → List VerificationCriterionResult
    → String
    → String
    → VerificationRun
    → VerificationRun
completed_run state results message now run = record run {
  state = state;
  criterion_results = results;
  completed_at = some now;
  error_message = if message == "" then run.error_message else some message;
}

-- `complete`
unfoldable pub complete :
    String
    → VerificationRunState
    → List VerificationCriterionResult
    → String
    → String
    → Runs
    → Result ServiceError Answer
complete run_id state results message now s = do
  guard (is_verdict state) (cannot_complete state)
  run ← require_run run_id s
  if is_terminal run.state then ok (kept run) else (do
    guard (not (is_passed state && not (all (λ c. is_pass c.status) results))) not_all_pass
    ok (stored run_id (completed_run state results message now run)))

-- The calls of a client.
pub data Call : Type 0 where
  requested : String → Option String → String → String → Call
  retried : String → String → String → Call
  was_cancelled : String → String → Call
  started : String → Call
  completed :
      String → VerificationRunState → List VerificationCriterionResult → String → String → Call

module _ (profiles : List Profile) (required_profile : String → Option String)
    (locale_compare : String → String → Order) where
  unfoldable pub answer : Call → Runs → Result ServiceError Answer
  unfolding request retry cancel mark_running complete
  answer (requested task p id now) s =
      request profiles required_profile locale_compare task p id now s
  answer (retried run_id id now) s = retry profiles required_profile locale_compare run_id id now s
  answer (was_cancelled run_id now) s = cancel run_id now s
  answer (started run_id) s = mark_running run_id s
  answer (completed run_id state results message now) s =
      complete run_id state results message now s

  unfoldable pub serve : List Call → Runs → Runs
  unfolding answer
  serve [] s = s
  serve (c ∷ cs) s = serve cs (settle s (answer c s)).0
