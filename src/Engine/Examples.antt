-- ===== src/Engine/Examples.antt =====
-- Small runs of the primitives of packages/workflow-engine.
use dark_kitchen_orchestrato.Prelude.{
  ℕ, suc, nat_eq, if◌then◌else◌, String, ◌≡◌, refl, Option, none, some, false, List, [], ◌∷◌, ◌++◌,
  arith, take, drop,
}
use dark_kitchen_orchestrato.Prelude.Maps
use dark_kitchen_orchestrato.Engine.Semaphore.{
  Semaphore, Event, acquired, fired, create, run, step, acquire, release, hand_over, abort, tickets,
}
use dark_kitchen_orchestrato.Engine.Semaphore.Invariant.{Inv, semaphore-Inv}
use dark_kitchen_orchestrato.Engine.Semaphore.Fairness.{
  release_all, EachHeld, granted, release_all-serves,
}
use dark_kitchen_orchestrato.Engine.Retry.{
  Outcome, returned, threw, cancelled, RetryPolicy, Aborts, step_error, with_retry,
}
use dark_kitchen_orchestrato.Engine.Retry.Attempts.{
  IsCalm, start, fail, retries, retry-returns, retry-exhausts,
}
use dark_kitchen_orchestrato.Engine.Journal
use dark_kitchen_orchestrato.Engine.Journal.{
  Journal, set, mark_in_flight, get_in_flight, clear_in_flight,
}
use dark_kitchen_orchestrato.Engine.AgentStep.{
  runner, late, HarnessError, Harness, gave, failed, AgentCallOutput, Stepped, AgentError,
  agent_error, run_agent_step, attempt,
}
use dark_kitchen_orchestrato.Engine.AgentStep.Attempts.{OffersOnce}
use dark_kitchen_orchestrato.Engine.AgentStep.Replay.{done, checkpoint_once, step_recorded}
use dark_kitchen_orchestrato.Engine.AgentStep.Failure.{step_failed}
use dark_kitchen_orchestrato.Engine.Keys.{
  root_key_context, build_call_key, new_builder, next_segment, next_key, next_keys,
}

abbrev one_slot : Semaphore
one_slot = record {
  available = 1;
  waiters = [];
  holders = [];
  cancelled = [];
  aborted = [];
  next = 0;
}

-- One holder, two that wait, and one whose signal fires while it waits.
abbrev history : List Event
history = acquired 7 ∷ acquired 7 ∷ acquired 8 ∷ acquired 7 ∷ fired 8 ∷ []

created : create 1 ≡ some one_slot
unfolding create
created = refl

semaphore-Inv_example : Inv 1 (run history one_slot)
semaphore-Inv_example = semaphore-Inv 1 history created

abbrev busy : Semaphore
busy = record {
  available = 0;
  waiters = record { ticket = 1; signal = 7 } ∷ record { ticket = 3; signal = 7 } ∷ [];
  holders = 0 ∷ [];
  cancelled = 2 ∷ [];
  aborted = 8 ∷ [];
  next = 4;
}

busy_reached : run history one_slot ≡ busy
unfolding run step acquire abort
busy_reached = refl

abbrev calls : List ℕ
calls = 0 ∷ 1 ∷ []

busy-Inv : Inv 1 busy
busy-Inv = record {
  conserved = refl;
  no_idle_slot = λ h. absurd (omega arith);
  waiters_live = (refl, (refl, tt));
}

busy-EachHeld : EachHeld calls busy
unfolding release hand_over
busy-EachHeld = (λ e. cc, (λ e. cc, tt))

release_all-serves_example :
    (granted calls busy ≡ tickets (take 2 busy.waiters))
    × ((release_all calls busy).waiters ≡ drop 2 busy.waiters)
release_all-serves_example = release_all-serves 1 calls busy busy-Inv busy-EachHeld (omega arith)

abbrev quiet : Aborts
quiet = record { before = λ n. false; after = λ n. false; delaying = λ n. false }

quiet-IsCalm : IsCalm quiet
quiet-IsCalm = record { before = λ n. refl; after = λ n. refl; delaying = λ n. refl }

abbrev twice : Option RetryPolicy
twice = some (record { max_attempts = 2; delay_ms = none })

-- Fails in its first attempt only; the state counts the calls.
abbrev flaky : ℕ → ℕ → ℕ × Outcome String String
flaky n s = (suc s, if nat_eq n 1 then threw "busy" else returned "fine")

abbrev broken : ℕ → ℕ → ℕ × Outcome String String
broken n s = (suc s, threw "broken")

retry-returns_example : with_retry quiet flaky twice 0 ≡ record {
  state = 2;
  events = retries flaky 1 ("busy" ∷ []);
  calls = 2;
  outcome = returned "fine";
}
retry-returns_example =
    retry-returns flaky quiet quiet-IsCalm twice 2 0 1 2 ("busy" ∷ []) (fail refl start) "fine"
      (omega arith) refl

retry-exhausts_example : with_retry quiet broken twice 0 ≡ record {
  state = 2;
  events = retries broken 1 ("broken" ∷ []) ++ step_error 2 "broken" ∷ [];
  calls = 2;
  outcome = threw "broken";
}
retry-exhausts_example =
    retry-exhausts broken quiet quiet-IsCalm twice 2 0 1 2 ("broken" ∷ []) (fail refl start)
      "broken" refl refl

-- The journal holds the result of another step, and the checkpoint of an interrupted one.
abbrev interrupted : Journal String String
interrupted = record { store = ("other", "old") ∷ []; in_flight = ("step", "session") ∷ [] }

abbrev busy_error : HarnessError
busy_error = record { text = "busy"; kind = some "rate-limit" }

-- Reports a checkpoint and fails, then answers.
abbrev flaky_harness : Harness String String
flaky_harness = record {
  reading = false;
  resolve = λ n. runner;
  run = λ n o. elim o [ some c ↦ ("next" ∷ [], failed busy_error) | none ↦ ([], gave "answer") ];
}

abbrev broken_harness : Harness String String
broken_harness = record {
  reading = false;
  resolve = λ n. runner;
  run = λ n o. ("next" ∷ [], failed busy_error);
}

abbrev answer : AgentCallOutput String
answer = record { role = "coder"; result = "answer"; call_key = "step" }

abbrev answered_step : Stepped String String
answered_step = done flaky_harness "coder" "step" interrupted quiet twice

abbrev failed_step : Stepped String String
failed_step = done broken_harness "coder" "step" interrupted quiet twice

checkpoint_once_example :
    OffersOnce
      (get_in_flight "step" interrupted)
      (done flaky_harness "coder" "step" interrupted quiet twice).offers
checkpoint_once_example = checkpoint_once flaky_harness "coder" "step" interrupted quiet twice

answered : (done flaky_harness "coder" "step" interrupted quiet twice).outcome ≡ returned answer
unfolding run_agent_step Journal.get Maps.get with_retry attempt get_in_flight
answered = refl

step_recorded_example :
    (Journal.get "step" answered_step.journal ≡ some "answer")
    × (Journal.get "other" answered_step.journal ≡ Journal.get "other" interrupted)
    × (answer.role ≡ "coder")
    × (answer.call_key ≡ "step")
step_recorded_example =
    step_recorded flaky_harness "coder" "step" interrupted quiet twice answer "other" answered
      (λ e. cc)

abbrev busy_agent : AgentError
busy_agent = agent_error "coder" "step" busy_error

threw_busy : failed_step.outcome ≡ threw busy_agent
unfolding run_agent_step Journal.get Maps.get with_retry attempt get_in_flight agent_error
threw_busy = refl

step_failed_example :
    (get_in_flight "step" failed_step.journal ≡ none)
    × (Journal.get "other" failed_step.journal ≡ Journal.get "other" interrupted)
step_failed_example =
    step_failed broken_harness "coder" "step" interrupted quiet twice busy_agent "other" threw_busy

-- The answer arrives as the workflow is cancelled.
abbrev late_harness : Harness String String
late_harness = record { reading = false; resolve = λ n. runner; run = λ n o. ([], late "answer") }

abbrev cancelled_step : Stepped String String
cancelled_step = done late_harness "coder" "step" interrupted quiet twice

was_cancelled : cancelled_step.outcome ≡ cancelled
unfolding run_agent_step Journal.get Maps.get with_retry attempt get_in_flight
was_cancelled = refl

-- An agent is called twice, with a phase between.
abbrev local_ids : List String
local_ids = "agent:a" ∷ "phase:b" ∷ "agent:a" ∷ []

keys_of_calls :
    next_keys (λ n. "1") local_ids (new_builder (root_key_context "run"))
    ≡ "run/agent:a" ∷ "run/phase:b" ∷ "run/agent:a[1]" ∷ []
unfolding next_keys next_key next_segment build_call_key Maps.get Maps.put
keys_of_calls = refl
