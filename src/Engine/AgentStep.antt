-- ===== src/Engine/AgentStep.antt =====
-- `runAgentStep` and `extractFailureKind` of packages/workflow-engine/src/engine.ts. The journal is
-- the in-memory one; a resolver and the runners that it returns are arguments. The slot of the
-- semaphore that each attempt takes and gives back is left to the module of the semaphore.
pub mod Attempts
pub mod Replay
pub mod Failure
use Prim.Native.String.{◌++◌ as append}
use dark_kitchen_orchestrato.Prelude.{
  ℕ, String, Bool, true, false, Option, none, some, List, [], ◌∷◌, ◌++◌, ◌==◌, if◌then◌else◌,
}
use dark_kitchen_orchestrato.Engine.Journal.{
  Journal, get, set, mark_in_flight, get_in_flight, clear_in_flight,
}
use dark_kitchen_orchestrato.Engine.Retry.{
  Outcome, returned, threw, cancelled, misconfigured, RetryPolicy, Aborts, Progress, Ended,
  with_retry,
}

pub data FailureKind : Type 0 where
  auth quota rate_limit merge_conflict agent_failure : FailureKind

-- A thrown value: its text, and its `kind` if that is a text.
pub record HarnessError : Type 0 where
  pub text : String
  pub kind : Option String

-- `extractFailureKind`
unfoldable pub extract_failure_kind : HarnessError → Option FailureKind
extract_failure_kind e = elim e.kind [
  | none ↦ none
  | some kind ↦
      if kind == "auth"
      then some auth
      else if kind == "quota"
      then some quota
      else if kind == "rate-limit"
      then some rate_limit
      else if kind == "merge-conflict"
      then some merge_conflict
      else if kind == "agent-failure"
      then some agent_failure
      else none
]

-- `WorkflowAgentError`
pub record AgentError : Type 0 where
  pub message : String
  pub role : String
  pub call_key : String
  pub failure_kind : Option FailureKind

unfoldable pub agent_error : String → String → HarnessError → AgentError
unfolding extract_failure_kind
agent_error role call_key e = record {
  message = append "Agent role \"" (append role (append "\" failed: " e.text));
  role = role;
  call_key = call_key;
  failure_kind = extract_failure_kind e;
}

-- `AgentCallOutput`
pub record AgentCallOutput (V : Type 0) : Type 0 where
  pub role : String
  pub result : V
  pub call_key : String

-- What the resolver comes to: a runner, an error, or the signal fires first.
pub data Resolved : Type 0 where
  runner : Resolved
  unresolved : HarnessError → Resolved
  stopped : Resolved

-- How a runner ends; `late` answers, and the signal fires before its result is recorded.
pub data Ran (V : Type 0) : Type 0 where
  gave : V → Ran V
  late : V → Ran V
  failed : HarnessError → Ran V
  aborted : Ran V

-- What is outside: whether the signal fires while the journal is read, and per attempt what the
-- resolver comes to, and what the runner does with the checkpoint that it is offered: the
-- checkpoints that it reports, and its end.
pub record Harness (V C : Type 0) : Type 0 where
  pub reading : Bool
  pub resolve : ℕ → Resolved
  pub run : ℕ → Option C → List C × Ran V

-- The variables that live through the attempts. `offers` records what each runner was offered.
pub record Step (V C : Type 0) : Type 0 where
  pub journal : Journal V C
  pub consumed : Bool
  pub offers : List (Option C)

module _ {V C : Type 0} (harness : Harness V C) (role call_key : String) (stored : Option C) where
  unfoldable pub mark_all : List C → Journal V C → Journal V C
  mark_all [] j = j
  mark_all (c ∷ cs) j = mark_all cs (mark_in_flight call_key c j)

  -- `checkpointConsumed ? undefined : storedCheckpoint`
  abbrev pub resume_checkpoint : Step V C → Option C
  resume_checkpoint s = if s.consumed then none else stored

  abbrev pub clear_if : Option C → Journal V C → Journal V C
  clear_if none j = j
  clear_if (some c) j = clear_in_flight call_key j

  -- What follows the end of the runner.
  unfoldable pub after_run : Step V C → Ran V → Step V C × Outcome AgentError (AgentCallOutput V)
  after_run s (gave v) = (
    record s { journal = clear_in_flight call_key (set call_key v s.journal) },
    returned (record { role = role; result = v; call_key = call_key }),
  )
  after_run s (late v) = (record s { journal = set call_key v s.journal }, cancelled)
  after_run s (failed e) = (s, threw (agent_error role call_key e))
  after_run s aborted = (s, cancelled)

  -- The function that `withRetry` calls.
  unfoldable pub attempt : ℕ → Step V C → Step V C × Outcome AgentError (AgentCallOutput V)
  unfolding after_run mark_all
  attempt n s = elim (harness.resolve n) [
    | unresolved e ↦ (s, threw (agent_error role call_key e))
    | stopped ↦ (s, cancelled)
    | runner ↦
        let resume = resume_checkpoint s in
        let (checkpoints, end) = harness.run n resume in
        after_run
          (record {
            journal = mark_all checkpoints (clear_if resume s.journal);
            consumed = true;
            offers = s.offers ++ resume ∷ [];
          })
          end
  ]

-- The state after the step with what it returned or threw.
pub record Stepped (V C : Type 0) : Type 0 where
  pub journal : Journal V C
  pub offers : List (Option C)
  pub events : List (Progress AgentError)
  pub outcome : Outcome AgentError (AgentCallOutput V)

module _ {V C : Type 0} where
  -- The `catch` around the retries drops the checkpoint of a step that does not return.
  abbrev pub conclude : String → Ended (Step V C) AgentError (AgentCallOutput V) → Stepped V C
  conclude call_key x = record {
    journal = elim x.outcome [
      | returned a ↦ x.state.journal
      | _ ↦ clear_in_flight call_key x.state.journal
    ];
    offers = x.state.offers;
    events = x.events;
    outcome = x.outcome;
  }

  -- What follows once the journal is read.
  unfoldable pub read_step :
      Aborts → Harness V C → String → String → Option RetryPolicy → Journal V C → Stepped V C
  read_step aborts harness role call_key policy j = elim (get call_key j) [
    | some v ↦ record {
      journal = j;
      offers = [];
      events = [];
      outcome = returned (record { role = role; result = v; call_key = call_key });
    }
    | none ↦ conclude call_key (
        with_retry aborts (attempt harness role call_key (get_in_flight call_key j)) policy
          (record { journal = j; consumed = false; offers = [] }))
  ]

  -- `raceWithSignal` around the reads of the journal.
  abbrev pub unless_fired : Bool → Journal V C → Stepped V C → Stepped V C
  unless_fired true j next = record { journal = j; offers = []; events = []; outcome = cancelled }
  unless_fired false j next = next

  -- `runAgentStep`
  unfoldable pub run_agent_step :
      Aborts → Harness V C → String → String → Option RetryPolicy → Journal V C → Stepped V C
  unfolding read_step
  run_agent_step aborts harness role call_key policy j =
      unless_fired harness.reading j (read_step aborts harness role call_key policy j)
