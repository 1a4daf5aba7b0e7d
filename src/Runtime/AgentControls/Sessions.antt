-- ===== src/Runtime/AgentControls/Sessions.antt =====
-- The controls of one session of `DefaultAgentControlService` in agent-controls.ts.
use dark_kitchen_orchestrato.Prelude.{String, not, ◌&&◌, Option, none, some, ◌==◌, if◌then◌else◌}
use dark_kitchen_orchestrato.Prelude.Stateful.{
  pure, throw, ◌>>=◌, ◌>>◌, catch, modify, ask, require,
}
use dark_kitchen_orchestrato.Prelude.Sets
use Prim.Native.String.{◌++◌ as append}
use dark_kitchen_orchestrato.Core.Runs.{AgentSessionState, AgentSession}
use dark_kitchen_orchestrato.Harness.RoleRouter.{HarnessProfile, HarnessRuntime}
use dark_kitchen_orchestrato.Runtime.AgentControls.{
  stored_profile, Controls, empty_instruction, unregistrable, sent, cancelled, resumed, stopped, M,
  Outside, is_terminal,
}
use dark_kitchen_orchestrato.Runtime.AgentControls.Store.{
  put_session, save_binding, require_session, require_active_session, require_bound_runtime,
  require_capability, save_session_state, touch_binding, audit, log, call,
}
use dark_kitchen_orchestrato.Runtime.AgentControls.Rows.{nonempty, subscribe_to}

-- `RegisterAgentSessionInput`
pub record RegisterAgentSessionInput : Type 0 where
  pub session : AgentSession
  pub runtime : HarnessRuntime
  pub profile : HarnessProfile
  pub initial_prompt : String
  pub role_id : Option String
  pub model : Option String
  pub reasoning : Option String

abbrev pub suppress : String → Controls → Controls
suppress id st = record st {
  suppressed_cancellation_events = Sets.add id st.suppressed_cancellation_events;
}

abbrev pub unsuppress : String → Controls → Controls
unsuppress id st = record st {
  suppressed_cancellation_events = Sets.delete id st.suppressed_cancellation_events;
}

module _ (outside : Outside) where
  -- `requireInstruction`
  abbrev pub require_instruction : String → M String
  require_instruction value =
      if outside.trim value == "" then throw empty_instruction else pure (outside.trim value)

  -- `registerSession`
  unfoldable pub register_session : RegisterAgentSessionInput → M (Unit {0})
  register_session input = do
    require
        (not (outside.trim input.session.id == "") && not (outside.trim input.initial_prompt == ""))
        unregistrable
    now ← ask outside.now
    modify (put_session input.session)
    save_binding outside (record {
      session_id = input.session.id;
      runtime_id = input.runtime.id;
      runtime_kind = input.runtime.kind;
      profile_id = input.profile.id;
      profile_snapshot = stored_profile input.profile;
      initial_prompt = outside.redact input.initial_prompt;
      role_id = nonempty input.role_id;
      model = nonempty input.model;
      reasoning = nonempty input.reasoning;
      last_activity_at = now;
      last_error = none;
      source_session_id = none;
      source_action = none;
      control_request_id = none;
      created_at = input.session.created_at;
      updated_at = now;
    })
    modify (subscribe_to input.session.id)

  -- `sendInstruction`
  unfoldable pub send_instruction : String → String → Option String → M (Unit {0})
  send_instruction id instruction request_id = do
    prompt ← require_instruction instruction
    session ← require_active_session outside id
    bound ← require_bound_runtime outside id
    require_capability outside bound.1 "sessions.live-instructions"
    call outside (sent bound.1.id id prompt) (λ st. outside.send_prompt st bound.1 id prompt)
    touch_binding outside bound.0
    audit outside "send-instruction" (some id) (some bound.0) request_id session.run_id none
    log outside id (append "sendInstruction: " (outside.shorten prompt))

  -- A cancellation that the handler of events must not take for the end of the session.
  unfoldable pub cancel_silently : HarnessRuntime → String → M (Unit {0})
  cancel_silently runtime id = do
    modify (suppress id)
    catch (call outside (cancelled runtime.id id) (λ st. outside.cancel_session st runtime id))
        (λ e. modify (unsuppress id) >> throw e)

  unfoldable pub resume : HarnessRuntime → String → M (Unit {0})
  resume runtime id =
      call outside (resumed runtime.id id) (λ st. outside.resume_session st runtime id)

  -- `interruptAndSend`
  unfoldable pub interrupt_and_send : String → String → Option String → M (Unit {0})
  interrupt_and_send id instruction request_id = do
    prompt ← require_instruction instruction
    session ← require_active_session outside id
    bound ← require_bound_runtime outside id
    require_capability outside bound.1 "sessions.cancel"
    require_capability outside bound.1 "sessions.resume"
    require_capability outside bound.1 "sessions.live-instructions"
    cancel_silently bound.1 id
    resume bound.1 id
    call outside (sent bound.1.id id prompt) (λ st. outside.send_prompt st bound.1 id prompt)
    save_session_state outside session AgentSessionState.running
    touch_binding outside bound.0
    audit outside "interrupt-and-send" (some id) (some bound.0) request_id session.run_id none
    log outside id (append "interruptAndSend: " (outside.shorten prompt))

  abbrev pub stop_bound : AgentSession → Option String → M (Unit {0})
  stop_bound session request_id = do
    bound ← require_bound_runtime outside session.id
    require_capability outside bound.1 "sessions.cancel"
    call outside (stopped bound.1.id session.id) (λ st. outside.stop_session st bound.1 session.id)
    save_session_state outside session AgentSessionState.stopped
    touch_binding outside bound.0
    audit outside "stop" (some session.id) (some bound.0) request_id session.run_id none
    log outside session.id "stop"

  -- `stopSession`
  unfoldable pub stop_session : String → Option String → M (Unit {0})
  stop_session id request_id = do
    session ← require_session outside id
    if is_terminal session.state then pure tt else stop_bound session request_id
