-- ===== src/Runtime/AgentControls.antt =====
-- The data of packages/runtime/src/agent-controls.ts (`DefaultAgentControlService`): bindings of
-- sessions, what the service and its store hold, and what stands outside.
pub mod Store
pub mod Rows
pub mod Replacement
pub mod Sessions
pub mod RunControls
pub mod Operations
pub mod Finality
pub mod Repetition
use dark_kitchen_orchestrato.Prelude.{
  ℕ, String, Bool, true, false, Option, none, some, List, Result, ◌==◌,
}
use dark_kitchen_orchestrato.Prelude.Stateful.{Stateful}
use dark_kitchen_orchestrato.Core.Runs.{RuntimeState, AgentSessionState, AgentSession, Run}
use dark_kitchen_orchestrato.Harness.RoleRouter.{HarnessProfile, HarnessRuntime}

pub data ReplacementAction : Type 0 where
  restart retry switch_profile : ReplacementAction

-- The texts of the actions, those of replacements and the others.
abbrev pub action_text : ReplacementAction → String
action_text restart = "restart"
action_text retry = "retry"
action_text switch_profile = "switch-profile"

-- A stored snapshot is a profile, or some other value.
pub data Snapshot : Type 0 where
  stored_profile : HarnessProfile → Snapshot
  invalid_snapshot : Snapshot

pub record AgentSessionRuntimeBinding : Type 0 where
  pub session_id : String
  pub runtime_id : String
  pub runtime_kind : String
  pub profile_id : String
  pub profile_snapshot : Snapshot
  pub initial_prompt : String
  pub role_id : Option String
  pub model : Option String
  pub reasoning : Option String
  pub last_activity_at : String
  pub last_error : Option String
  pub source_session_id : Option String
  pub source_action : Option ReplacementAction
  pub control_request_id : Option String
  pub created_at : String
  pub updated_at : String

pub record ExecutionNode : Type 0 where
  pub id : String
  pub run_id : String
  pub task_id : String
  pub state : RuntimeState
  pub agent_session_id : Option String
  pub created_at : String
  pub updated_at : String

-- The payload of an event of kind `agent.control`, with its time.
pub record ControlEvent : Type 0 where
  pub request_id : String
  pub action : String
  pub session_id : Option String
  pub resulting_session_id : Option String
  pub run_id : String
  pub binding : Option AgentSessionRuntimeBinding
  pub occurred_at : String

-- A call of a runtime, by the identifier of the runtime.
pub data Call : Type 0 where
  sent : String → String → String → Call
  cancelled resumed stopped : String → String → Call
  started : String → Call

pub data FailureKind : Type 0 where
  auth quota rate_limit stuck_agent agent_failure : FailureKind

pub record RuntimeFailure : Type 0 where
  pub kind : FailureKind
  pub session_id : String
  pub run_id : String
  pub summary : String

-- The rows of the store in the order of their creation, and the fields of the service.
pub record Controls : Type 0 where
  pub sessions : List (String × AgentSession)
  pub bindings : List (String × AgentSessionRuntimeBinding)
  pub nodes : List (String × ExecutionNode)
  pub runs : List (String × Run)
  pub events : List (String × ControlEvent)
  pub suppressed_cancellation_events : List String
  pub control_log : List (String × String)
  pub subscribed : List String
  pub reported : List RuntimeFailure
  pub calls : List Call

pub data ControlError : Type 0 where
  session_not_found no_binding run_not_found run_is_terminal nothing_to_retry :
      String → ControlError
  not_active not_stopped : String → AgentSessionState → ControlError
  cannot_resume : String → RuntimeState → ControlError
  runtime_unavailable request_already_used runtime_failed : String → ControlError
  unsupported_capability : String → String → ControlError
  empty_instruction invalid_profile reused_session_id store_conflict unregistrable : ControlError
  profile_unavailable no_profile_switching : ControlError
  wrong_runtime_kind : String → String → ControlError

abbrev pub M : Type 0 → Type 0
M A = Stateful ControlError Controls A

-- `HarnessSessionState`
pub data HarnessSessionState : Type 0 where
  session_state : AgentSessionState → HarnessSessionState
  paused cancelled : HarnessSessionState

-- `toAgentSessionState`
abbrev pub to_agent_session_state : HarnessSessionState → AgentSessionState
to_agent_session_state cancelled = AgentSessionState.stopped
to_agent_session_state paused = AgentSessionState.waiting
to_agent_session_state (session_state s) = s

pub record StartSessionInput : Type 0 where
  pub run_id : String
  pub task_id : String
  pub workspace_id : String
  pub profile : HarnessProfile
  pub prompt : String
  pub model : Option String
  pub reasoning : Option String

-- `ResolvedControlTarget`
pub record ResolvedControlTarget : Type 0 where
  pub runtime : HarnessRuntime
  pub profile : HarnessProfile
  pub model : Option String
  pub reasoning : Option String

-- The options of the service, what the runtimes answer, and texts: `trim`, `redact` for prompts (and
-- `redact_stored` of the store), `shorten` for the log and `classify` for the summary of a failure.
pub record Outside : Type 0 where
  pub resolve_runtime : String → String → Option HarnessRuntime
  pub resolve_profile : Option (String → Option ResolvedControlTarget)
  pub now : Controls → String
  pub create_request_id : Controls → String
  pub reports : Bool
  pub send_prompt : Controls → HarnessRuntime → String → String → Result String (Unit {0})
  pub cancel_session : Controls → HarnessRuntime → String → Result String (Unit {0})
  pub resume_session : Controls → HarnessRuntime → String → Result String (Unit {0})
  pub stop_session : Controls → HarnessRuntime → String → Result String (Unit {0})
  pub start_session :
      Controls → HarnessRuntime → StartSessionInput → Result String (String × HarnessSessionState)
  pub trim : String → String
  pub redact : String → String
  pub redact_stored : String → String
  pub shorten : String → String
  pub classify : String → FailureKind

-- `isActive` and `isTerminal`
abbrev pub is_active : AgentSessionState → Bool
is_active AgentSessionState.starting = true
is_active AgentSessionState.running = true
is_active AgentSessionState.waiting = true
is_active AgentSessionState.blocked = true
is_active _ = false

abbrev pub is_terminal : AgentSessionState → Bool
is_terminal AgentSessionState.completed = true
is_terminal AgentSessionState.failed = true
is_terminal AgentSessionState.stopped = true
is_terminal _ = false

abbrev pub is_terminal_run : RuntimeState → Bool
is_terminal_run RuntimeState.completed = true
is_terminal_run RuntimeState.failed = true
is_terminal_run RuntimeState.stopped = true
is_terminal_run _ = false
