-- ===== src/Core/Runs.antt =====
-- The life of runs and agent sessions in packages/core/src/domain.ts: the transition tables and
-- the functions that follow them.
pub mod Life
use mathlib.Core.Bool.{decide}
use dark_kitchen_orchestrato.Prelude.{
  String, Option, none, some, Bool, true, false, ◌||◌, List, [], ◌∷◌, Result, ok, err, any,
  if◌then◌else◌,
}
use dark_kitchen_orchestrato.Core.Ids.{DomainError, illegal_transition}

-- `RuntimeState`, which is `RunState` too.
pub data RuntimeState : Type 0 where
  queued starting running waiting blocked completed failed stopped interrupted : RuntimeState

pub data AgentSessionState : Type 0 where
  starting running waiting blocked completed failed stopped interrupted : AgentSessionState

pub record Run : Type 0 where
  pub id : String
  pub project_id : String
  pub task_id : String
  pub workflow_run_id : Option String
  pub state : RuntimeState
  pub execution_node_ids : List String
  pub workspace_id : Option String
  pub created_at : String
  pub updated_at : String
  pub completed_at : Option String

pub record AgentSession : Type 0 where
  pub id : String
  pub run_id : String
  pub task_id : String
  pub execution_node_id : String
  pub workspace_id : String
  pub state : AgentSessionState
  pub created_at : String
  pub updated_at : String
  pub completed_at : Option String

-- The spelling of a state in the source.
abbrev pub state_text : RuntimeState → String
state_text queued = "queued"
state_text RuntimeState.starting = "starting"
state_text RuntimeState.running = "running"
state_text RuntimeState.waiting = "waiting"
state_text RuntimeState.blocked = "blocked"
state_text RuntimeState.completed = "completed"
state_text RuntimeState.failed = "failed"
state_text RuntimeState.stopped = "stopped"
state_text RuntimeState.interrupted = "interrupted"

-- An agent session's state is one of the run states.
abbrev pub runtime_state : AgentSessionState → RuntimeState
runtime_state starting = RuntimeState.starting
runtime_state running = RuntimeState.running
runtime_state waiting = RuntimeState.waiting
runtime_state blocked = RuntimeState.blocked
runtime_state completed = RuntimeState.completed
runtime_state failed = RuntimeState.failed
runtime_state stopped = RuntimeState.stopped
runtime_state interrupted = RuntimeState.interrupted

pub RuntimeState-discrete : Discrete RuntimeState
RuntimeState-discrete = hlevel

pub AgentSessionState-discrete : Discrete AgentSessionState
AgentSessionState-discrete = hlevel

-- `runTransitions`
abbrev pub run_transitions : RuntimeState → List RuntimeState
run_transitions queued =
    RuntimeState.starting ∷ RuntimeState.failed ∷ RuntimeState.stopped ∷ RuntimeState.interrupted
    ∷ []
run_transitions RuntimeState.starting =
    RuntimeState.running ∷ RuntimeState.failed ∷ RuntimeState.stopped ∷ RuntimeState.interrupted
    ∷ []
run_transitions RuntimeState.running =
    RuntimeState.waiting ∷ RuntimeState.blocked ∷ RuntimeState.completed ∷ RuntimeState.failed
    ∷ RuntimeState.stopped ∷ RuntimeState.interrupted ∷ []
run_transitions RuntimeState.waiting =
    RuntimeState.running ∷ RuntimeState.blocked ∷ RuntimeState.completed ∷ RuntimeState.failed
    ∷ RuntimeState.stopped ∷ RuntimeState.interrupted ∷ []
run_transitions RuntimeState.blocked =
    RuntimeState.running ∷ RuntimeState.failed ∷ RuntimeState.stopped ∷ RuntimeState.interrupted
    ∷ []
run_transitions RuntimeState.completed = []
run_transitions RuntimeState.failed = []
run_transitions RuntimeState.stopped = []
run_transitions RuntimeState.interrupted = RuntimeState.starting ∷ []

-- `agentSessionTransitions`
abbrev pub agent_session_transitions : AgentSessionState → List AgentSessionState
agent_session_transitions starting = running ∷ failed ∷ stopped ∷ interrupted ∷ []
agent_session_transitions running =
    waiting ∷ blocked ∷ completed ∷ failed ∷ stopped ∷ interrupted ∷ []
agent_session_transitions waiting =
    running ∷ blocked ∷ completed ∷ failed ∷ stopped ∷ interrupted ∷ []
agent_session_transitions blocked = running ∷ failed ∷ stopped ∷ interrupted ∷ []
agent_session_transitions completed = []
agent_session_transitions failed = []
agent_session_transitions stopped = []
agent_session_transitions interrupted = starting ∷ []

-- `canTransitionRun`
unfoldable pub can_transition_run : RuntimeState → RuntimeState → Bool
unfolding RuntimeState-discrete decide
can_transition_run from to = any (λ s. decide (RuntimeState-discrete s to)) (run_transitions from)

-- `canTransitionAgentSession`
unfoldable pub can_transition_agent_session : AgentSessionState → AgentSessionState → Bool
unfolding AgentSessionState-discrete decide
can_transition_agent_session from to =
    any (λ s. decide (AgentSessionState-discrete s to)) (agent_session_transitions from)

-- `isTerminalRuntimeState`
abbrev pub is_terminal_runtime_state : RuntimeState → Bool
is_terminal_runtime_state RuntimeState.completed = true
is_terminal_runtime_state RuntimeState.failed = true
is_terminal_runtime_state RuntimeState.stopped = true
is_terminal_runtime_state _ = false

-- `transitionRun`
unfoldable pub transition_run : Run → RuntimeState → String → Result DomainError Run
transition_run run next now =
    if can_transition_run run.state next
    then if is_terminal_runtime_state next
      then ok (record run { state = next; updated_at = now; completed_at = some now })
      else ok (record run { state = next; updated_at = now })
    else err (illegal_transition "run" (state_text run.state) (state_text next))

-- `transitionAgentSession`
unfoldable pub transition_agent_session :
    AgentSession → AgentSessionState → String → Result DomainError AgentSession
transition_agent_session session next now =
    if can_transition_agent_session session.state next
    then if is_terminal_runtime_state (runtime_state next)
      then ok (record session { state = next; updated_at = now; completed_at = some now })
      else ok (record session { state = next; updated_at = now })
    else err (
        illegal_transition "agent session" (state_text (runtime_state session.state))
          (state_text (runtime_state next)))
