-- ===== src/Runtime/AgentControls/Replacement.antt =====
-- `startReplacement`, `findExistingReplacement` and the controls of agent-controls.ts that start a
-- session in place of one that ended.
use dark_kitchen_orchestrato.Prelude.{String, not, Option, none, some, ◌==◌, if◌then◌else◌}
use dark_kitchen_orchestrato.Prelude.Stateful.{
  pure, throw, ◌>>=◌, ◌>>◌, catch, attempt, modify, ask, expect, require,
}
use dark_kitchen_orchestrato.Prelude.Maps
use Prim.Native.String.{◌++◌ as append}
use dark_kitchen_orchestrato.Core.Runs.{AgentSession}
use dark_kitchen_orchestrato.Harness.RoleRouter.{HarnessProfile, HarnessRuntime}
use dark_kitchen_orchestrato.Runtime.AgentControls.{
  ReplacementAction, action_text, AgentSessionRuntimeBinding, ControlError, not_stopped,
  reused_session_id, profile_unavailable, no_profile_switching, wrong_runtime_kind, stopped,
  started, M, HarnessSessionState, StartSessionInput, ResolvedControlTarget, Outside, is_terminal,
}
use dark_kitchen_orchestrato.Runtime.AgentControls.Store.{
  put_session, save_binding, require_session, require_binding, require_exact_runtime, audit, log,
  call,
}
use dark_kitchen_orchestrato.Runtime.AgentControls.Rows.{
  find_existing_replacement, require_harness_profile, first_of, profile_of, nonempty,
  replacement_of, replacement_binding, reassigned, rerun, subscribe_to,
}

-- `if (requestId)`
module _ (outside : Outside) where
  -- `stopSession(…).catch(() => undefined)`
  abbrev pub stop_quietly : HarnessRuntime → String → M (Unit {0})
  stop_quietly runtime id =
      catch (call outside (stopped runtime.id id) (λ st. outside.stop_session st runtime id))
        (λ e. pure tt)

  -- The winner of a race, or the error.
  abbrev pub winner_or : ControlError → Option AgentSession → M AgentSession
  winner_or e none = throw e
  winner_or e (some w) = pure w

  -- After the binding of the replacement was saved.
  unfoldable pub settle :
      AgentSession
      → ReplacementAction
      → Option String
      → HarnessRuntime
      → AgentSession
      → AgentSessionRuntimeBinding
      → String
      → M AgentSession
  settle source action request_id runtime r b now = do
    modify (put_session r)
    node ← ask (λ st. Maps.get source.execution_node_id st.nodes)
    modify (reassigned node r now)
    run ← ask (λ st. Maps.get source.run_id st.runs)
    modify (rerun run now)
    modify (subscribe_to r.id)
    audit outside (action_text action) (some source.id) (some b) request_id source.run_id
        (some r.id)
    log outside source.id (append (action_text action) (append " -> " r.id))
    pure r

  -- A binding that clashes is that of another replacement.
  abbrev pub bind_replacement :
      AgentSession
      → ReplacementAction
      → Option String
      → HarnessRuntime
      → AgentSession
      → AgentSessionRuntimeBinding
      → String
      → M AgentSession
  bind_replacement source action request_id runtime r b now =
      attempt (save_binding outside b) (λ saved. settle source action request_id runtime r b now)
        (λ e.
          stop_quietly runtime r.id
          >> (find_existing_replacement source action b.profile_id request_id >>= winner_or e))

  -- After the session was started.
  unfoldable pub adopt :
      AgentSession
      → AgentSessionRuntimeBinding
      → ReplacementAction
      → Option String
      → HarnessRuntime
      → StartSessionInput
      → String × HarnessSessionState
      → M AgentSession
  adopt source b action request_id runtime input begun =
      if begun.0 == source.id
      then stop_quietly runtime begun.0 >> throw reused_session_id
      else ask outside.now >>= λ now.
          bind_replacement source action request_id runtime
            (replacement_of source begun.0 begun.1 now)
            (replacement_binding source b action request_id runtime input begun.0 now) now

  abbrev pub runtime_of :
      Option ResolvedControlTarget → AgentSessionRuntimeBinding → M HarnessRuntime
  runtime_of none b = require_exact_runtime outside b
  runtime_of (some t) b = pure t.runtime

  abbrev pub target_profile :
      Option ResolvedControlTarget → AgentSessionRuntimeBinding → M HarnessProfile
  target_profile none b = require_harness_profile b.profile_snapshot
  target_profile (some t) b = pure t.profile

  abbrev model_of : Option ResolvedControlTarget → AgentSessionRuntimeBinding → Option String
  model_of none b = b.model
  model_of (some t) b = first_of t.model b.model

  abbrev reasoning_of : Option ResolvedControlTarget → AgentSessionRuntimeBinding → Option String
  reasoning_of none b = b.reasoning
  reasoning_of (some t) b = first_of t.reasoning b.reasoning

  -- No session replaces the source yet.
  unfoldable pub start_new :
      AgentSession
      → AgentSessionRuntimeBinding
      → ReplacementAction
      → Option String
      → Option ResolvedControlTarget
      → M AgentSession
  start_new source b action request_id target = do
    runtime ← runtime_of target b
    profile ← target_profile target b
    let input : StartSessionInput = record {
      run_id = source.run_id;
      task_id = source.task_id;
      workspace_id = source.workspace_id;
      profile = profile;
      prompt = b.initial_prompt;
      model = nonempty (model_of target b);
      reasoning = nonempty (reasoning_of target b);
    }
    begun ← call outside (started runtime.id) (λ st. outside.start_session st runtime input)
    adopt source b action request_id runtime input begun

  abbrev pub or_start : Option AgentSession → M AgentSession → M AgentSession
  or_start none start = start
  or_start (some existing) start = pure existing

  -- `startReplacement`
  unfoldable pub start_replacement :
      String → ReplacementAction → Option String → Option ResolvedControlTarget → M AgentSession
  start_replacement session_id action request_id target = do
    source ← require_session outside session_id
    require (is_terminal source.state) (not_stopped session_id source.state)
    b ← require_binding outside session_id
    existing ← find_existing_replacement source action (profile_of target b) request_id
    or_start existing (start_new source b action request_id target)

  abbrev pub checked_target : String → Option ResolvedControlTarget → M ResolvedControlTarget
  checked_target profile_id none = throw profile_unavailable
  checked_target profile_id (some t) = do
    require (t.profile.id == profile_id) profile_unavailable
    require (t.runtime.kind == t.profile.kind) (wrong_runtime_kind profile_id t.runtime.kind)
    pure t

  -- `switchAgentProfile`
  unfoldable pub switch_agent_profile : String → String → M AgentSession
  switch_agent_profile session_id harness_profile_id = do
    require (not (outside.trim harness_profile_id == "")) profile_unavailable
    resolve ← expect no_profile_switching outside.resolve_profile
    target ←
        checked_target (outside.trim harness_profile_id) (resolve (outside.trim harness_profile_id))
    start_replacement session_id ReplacementAction.switch_profile none (some target)
