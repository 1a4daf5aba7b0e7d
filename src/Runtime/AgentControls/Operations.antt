-- ===== src/Runtime/AgentControls/Operations.antt =====
-- The handler of the events of a session of `DefaultAgentControlService` in agent-controls.ts, and
-- all its operations together. Calls are handled one at a time.
use dark_kitchen_orchestrato.Prelude.{
  String, Bool, true, false, ◌&&◌, Option, none, some, or_else, List, [], ◌∷◌, ◌++◌, if◌then◌else◌,
}
use dark_kitchen_orchestrato.Prelude.Stateful.{pure, ◌>>=◌, ◌>>◌, catch, modify, ask}
use dark_kitchen_orchestrato.Prelude.Sets
use dark_kitchen_orchestrato.Prelude.Maps
use dark_kitchen_orchestrato.Core.Runs.{AgentSessionState, AgentSession}
use dark_kitchen_orchestrato.Runtime.AgentControls.{
  ReplacementAction, AgentSessionRuntimeBinding, Controls, RuntimeFailure, M, HarnessSessionState,
  to_agent_session_state, Outside,
}
use dark_kitchen_orchestrato.Runtime.AgentControls.Store.{save_binding, save_session_state}
use dark_kitchen_orchestrato.Runtime.AgentControls.Replacement.{
  start_replacement, switch_agent_profile,
}
use dark_kitchen_orchestrato.Runtime.AgentControls.Sessions.{
  RegisterAgentSessionInput, unsuppress, register_session, send_instruction, interrupt_and_send,
  stop_session,
}
use dark_kitchen_orchestrato.Runtime.AgentControls.RunControls.{pause_run, resume_run, retry_run}

-- An event of a session, with the text of its error.
pub record HarnessSessionEvent : Type 0 where
  pub state : HarnessSessionState
  pub error : Option String

abbrev is_failed : HarnessSessionState → Bool
is_failed (HarnessSessionState.session_state AgentSessionState.failed) = true
is_failed _ = false

abbrev is_cancelled : HarnessSessionState → Bool
is_cancelled HarnessSessionState.cancelled = true
is_cancelled _ = false

abbrev pub report : RuntimeFailure → Controls → Controls
report f st = record st { reported = st.reported ++ f ∷ [] }

module _ (outside : Outside) where
  abbrev pub report_failure : AgentSession → HarnessSessionEvent → M (Unit {0})
  report_failure session event =
      if is_failed event.state && outside.reports
      then modify (
          report (record {
            kind = outside.classify (or_else event.error "Agent session failed");
            session_id = session.id;
            run_id = session.run_id;
            summary = or_else event.error "Agent session failed";
          }))
      else pure tt

  abbrev error_after : Option String → Option String → Option String
  error_after none old = old
  error_after (some e) old = some e

  abbrev pub follow :
      HarnessSessionEvent → Option AgentSession → Option AgentSessionRuntimeBinding → M (Unit {0})
  follow event (some session) (some b) = do
    save_session_state outside session (to_agent_session_state event.state)
    now ← ask outside.now
    save_binding outside (record b {
      last_activity_at = now;
      last_error = error_after event.error b.last_error;
      updated_at = now;
    })
    report_failure session event
  follow event _ _ = pure tt

  -- The handler of `subscribeToLifecycle`.
  unfoldable pub on_event : String → HarnessSessionEvent → M (Unit {0})
  on_event id event = do
    expected ← ask (λ st. is_cancelled event.state && Sets.has id st.suppressed_cancellation_events)
    session ← ask (λ st. Maps.get id st.sessions)
    b ← ask (λ st. Maps.get id st.bindings)
    if expected then modify (unsuppress id) else catch (follow event session b) (λ e. pure tt)

-- A request to the service, or an event of a session.
pub data Control : Type 0 where
  registering : RegisterAgentSessionInput → Control
  sending interrupting : String → String → Option String → Control
  stopping restarting retrying : String → Option String → Control
  switching : String → String → Control
  pausing resuming rerunning : String → Control
  happening : String → HarnessSessionEvent → Control

module _ (outside : Outside) where
  -- The state after a control, also where it fails.
  unfoldable pub after : Control → Controls → Controls
  after (registering input) st = (register_session outside input st).1
  after (sending id instruction request_id) st =
      (send_instruction outside id instruction request_id st).1
  after (interrupting id instruction request_id) st =
      (interrupt_and_send outside id instruction request_id st).1
  after (stopping id request_id) st = (stop_session outside id request_id st).1
  after (restarting id request_id) st =
      (start_replacement outside id ReplacementAction.restart request_id none st).1
  after (retrying id request_id) st =
      (start_replacement outside id ReplacementAction.retry request_id none st).1
  after (switching id profile_id) st = (switch_agent_profile outside id profile_id st).1
  after (pausing run_id) st = (pause_run outside run_id st).1
  after (resuming run_id) st = (resume_run outside run_id st).1
  after (rerunning run_id) st = (retry_run outside run_id st).1
  after (happening id event) st = (on_event outside id event st).1

  unfoldable pub after_all : List Control → Controls → Controls
  after_all [] st = st
  after_all (c ∷ cs) st = after_all cs (after c st)
