-- ===== src/Engine/Retry.antt =====
-- `withRetry` of packages/workflow-engine/src/engine.ts over a state `S`. The function that is
-- retried, and whether the signal has fired at each of the three places that look, are arguments.
pub mod Attempts
pub mod Rule
use dark_kitchen_orchestrato.Prelude.{
  ℕ, zero, suc, ◌-◌, String, Bool, true, false, ◌&&◌, ltb, Option, none, some, or_else, List, [],
  ◌∷◌, ◌++◌, if◌then◌else◌,
}

-- How an awaited call ends: it returns, throws an error, or throws `WorkflowCancelledError`.
pub data Outcome (E A : Type 0) : Type 0 where
  returned : A → Outcome E A
  threw : E → Outcome E A
  cancelled : Outcome E A
  -- `WorkflowConfigurationError`
  misconfigured : Outcome E A

-- `RetryPolicy`. A number of attempts that is no positive integer counts as 0 here.
pub record RetryPolicy : Type 0 where
  pub max_attempts : ℕ
  pub delay_ms : Option ℕ

-- Whether the signal has fired before an attempt, after it failed, and during the delay.
pub record Aborts : Type 0 where
  pub before : ℕ → Bool
  pub after : ℕ → Bool
  pub delaying : ℕ → Bool

-- The progress events of a retried step.
pub data Progress (E : Type 0) : Type 0 where
  step_retry step_error : ℕ → E → Progress E
  -- The error is a `WorkflowConfigurationError`.
  retry_misconfigured error_misconfigured : ℕ → Progress E

-- What a failed attempt threw, `none` for a `WorkflowConfigurationError`: its events, and the error
-- thrown on.
abbrev pub retry_event : {E : Type 0} → ℕ → Option E → Progress E
retry_event n (some e) = step_retry n e
retry_event n none = retry_misconfigured n

abbrev pub error_event : {E : Type 0} → ℕ → Option E → Progress E
error_event n (some e) = step_error n e
error_event n none = error_misconfigured n

abbrev pub rethrown : {E A : Type 0} → Option E → Outcome E A
rethrown (some e) = threw e
rethrown none = misconfigured

pub record Ended (S E A : Type 0) : Type 0 where
  pub state : S
  pub events : List (Progress E)
  pub calls : ℕ
  pub outcome : Outcome E A

module _ {S E A : Type 0} (aborts : Aborts) (fn : ℕ → S → S × Outcome E A) (delay_ms : ℕ) where
  abbrev pub finish : S → ℕ → List (Progress E) → Outcome E A → Ended S E A
  finish s calls events o = record { state = s; events = events; calls = calls; outcome = o }

  -- What follows the call of an attempt; what follows a failure is handed in.
  settle : ℕ → List (Progress E) → (S → Option E → Ended S E A) → S → Outcome E A → Ended S E A
  settle attempt events on_failure s (returned a) = finish s attempt events (returned a)
  settle attempt events on_failure s cancelled = finish s attempt events cancelled
  settle attempt events on_failure s misconfigured = elim (aborts.after attempt) [
    | true ↦ finish s attempt events cancelled
    | false ↦ on_failure s none
  ]
  settle attempt events on_failure s (threw e) = elim (aborts.after attempt) [
    | true ↦ finish s attempt events cancelled
    | false ↦ on_failure s (some e)
  ]

  -- One attempt.
  attempt_once : ℕ → List (Progress E) → S → (S → Option E → Ended S E A) → Ended S E A
  unfolding settle
  attempt_once attempt events s on_failure = elim (aborts.before attempt) [
    | true ↦ finish s (attempt - 1) events cancelled
    | false ↦ settle attempt events on_failure (fn attempt s).0 (fn attempt s).1
  ]

  -- The loop; the first argument counts the attempts that may follow the present one.
  unfoldable pub retry_loop : ℕ → ℕ → List (Progress E) → S → Ended S E A
  unfolding attempt_once
  retry_loop zero attempt events s =
      attempt_once attempt events s
        λ s' e. finish s' attempt (events ++ error_event attempt e ∷ []) (rethrown e)
  retry_loop (suc left) attempt events s = attempt_once attempt events s λ s' e.
      elim (ltb 0 delay_ms && aborts.delaying attempt) [
        | true ↦ finish s' attempt (events ++ retry_event attempt e ∷ []) cancelled
        | false ↦ retry_loop left (suc attempt) (events ++ retry_event attempt e ∷ []) s'
      ]

-- `retryPolicy?.maxAttempts ?? 1`
abbrev pub max_attempts_of : Option RetryPolicy → ℕ
max_attempts_of none = 1
max_attempts_of (some p) = p.max_attempts

-- `retryPolicy?.delayMs ?? 0`
abbrev pub delay_of : Option RetryPolicy → ℕ
delay_of none = 0
delay_of (some p) = or_else p.delay_ms 0

-- `withRetry`
unfoldable pub with_retry :
    {S E A : Type 0} → Aborts → (ℕ → S → S × Outcome E A) → Option RetryPolicy → S → Ended S E A
unfolding retry_loop
with_retry aborts fn policy s = elim (max_attempts_of policy) [
  | zero ↦ record { state = s; events = []; calls = 0; outcome = misconfigured }
  | suc left ↦ retry_loop aborts fn (delay_of policy) left 1 [] s
]
