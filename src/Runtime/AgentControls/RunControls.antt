-- ===== src/Runtime/AgentControls/RunControls.antt =====
-- The controls of a run of `DefaultAgentControlService` in agent-controls.ts: its sessions together.
use dark_kitchen_orchestrato.Prelude.{
  String, Bool, true, false, not, Option, none, some, List, [], ◌∷◌, filter, find, ◌==◌,
}
use dark_kitchen_orchestrato.Prelude.Stateful.{
  pure, throw, ◌>>=◌, ◌>>◌, modify, ask, require, each, collect,
}
use dark_kitchen_orchestrato.Prelude.Maps
use Prim.Native.String.{◌++◌ as append}
use dark_kitchen_orchestrato.Core.Runs.{RuntimeState, AgentSessionState, AgentSession, Run}
use dark_kitchen_orchestrato.Harness.RoleRouter.{HarnessRuntime}
use dark_kitchen_orchestrato.Runtime.AgentControls.{
  ReplacementAction, AgentSessionRuntimeBinding, Controls, run_is_terminal, cannot_resume,
  nothing_to_retry, M, Outside, is_active, is_terminal_run,
}
use dark_kitchen_orchestrato.Runtime.AgentControls.Store.{
  put_run, require_bound_runtime, require_capability, require_run, save_session_state,
  save_run_state, audit,
}
use dark_kitchen_orchestrato.Runtime.AgentControls.Replacement.{start_replacement}
use dark_kitchen_orchestrato.Runtime.AgentControls.Sessions.{cancel_silently, resume}

-- A session with its binding and runtime.
abbrev pub Bound : Type 0
Bound = AgentSession × (AgentSessionRuntimeBinding × HarnessRuntime)

abbrev pub last : List AgentSession → Option AgentSession
last [] = none
last (s ∷ []) = some s
last (s ∷ (r ∷ rs)) = last (r ∷ rs)

abbrev pub sessions_of : String → Controls → List AgentSession
sessions_of run_id st = filter (λ s. s.run_id == run_id) (Maps.values st.sessions)

module _ (outside : Outside) where
  abbrev bound_of : AgentSession → M Bound
  bound_of s = require_bound_runtime outside s.id >>= λ b. pure (s, b)

  unfoldable pub pause_session : Bound → M (Unit {0})
  pause_session item = do
    cancel_silently outside item.1.1 item.0.id
    save_session_state outside item.0 AgentSessionState.waiting
    pure tt

  abbrev pub pause_active : Run → M Run
  pause_active run = do
    active ← ask (λ st. filter (λ s. is_active s.state) (sessions_of run.id st))
    bound ← collect bound_of active
    each
        (λ item.
          require_capability outside item.1.1 "sessions.cancel"
          >> require_capability outside item.1.1 "sessions.resume")
        bound
    each pause_session bound
    updated ← save_run_state outside run RuntimeState.waiting
    audit outside "pause-run" none none none updated.id none
    pure updated

  abbrev pub pause_from : String → Run → RuntimeState → M Run
  pause_from run_id run RuntimeState.waiting = pure run
  pause_from run_id run state =
      require (not (is_terminal_run state)) (run_is_terminal run_id) >> pause_active run

  -- `pauseRun`
  unfoldable pub pause_run : String → M Run
  pause_run run_id = do run ← require_run outside run_id; pause_from run_id run run.state

  abbrev is_held : AgentSessionState → Bool
  is_held AgentSessionState.waiting = true
  is_held AgentSessionState.blocked = true
  is_held _ = false

  unfoldable pub continue_session : Bound → M (Unit {0})
  continue_session item = do
    resume outside item.1.1 item.0.id
    save_session_state outside item.0 AgentSessionState.running
    pure tt

  abbrev pub resume_held : Run → M Run
  resume_held run = do
    held ← ask (λ st. filter (λ s. is_held s.state) (sessions_of run.id st))
    bound ← collect bound_of held
    each (λ item. require_capability outside item.1.1 "sessions.resume") bound
    each continue_session bound
    updated ← save_run_state outside run RuntimeState.running
    audit outside "resume-run" none none none updated.id none
    pure updated

  abbrev pub resume_from : String → Run → RuntimeState → M Run
  resume_from run_id run RuntimeState.running = pure run
  resume_from run_id run RuntimeState.waiting = resume_held run
  resume_from run_id run RuntimeState.blocked = resume_held run
  resume_from run_id run state = throw (cannot_resume run_id state)

  -- `resumeRun`
  unfoldable pub resume_run : String → M Run
  resume_run run_id = do run ← require_run outside run_id; resume_from run_id run run.state

  abbrev pub retry_latest : Run → AgentSession → M AgentSession
  retry_latest run latest = do
    replacement ←
        start_replacement outside latest.id ReplacementAction.retry
          (some (append "retry-run:" (append run.id (append ":" latest.id)))) none
    now ← ask outside.now
    modify (
        put_run
          (record run { state = RuntimeState.running; updated_at = now; completed_at = none }))
    b ← ask (λ st. Maps.get replacement.id st.bindings)
    audit outside "retry-run" (some latest.id) b none run.id (some replacement.id)
    pure replacement

  abbrev pub retry_or_keep : Run → Option AgentSession → Option AgentSession → M AgentSession
  retry_or_keep run (some active) latest = pure active
  retry_or_keep run none none = throw (nothing_to_retry run.id)
  retry_or_keep run none (some latest) = retry_latest run latest

  -- `retryRun`
  unfoldable pub retry_run : String → M AgentSession
  retry_run run_id = do
    run ← require_run outside run_id
    sessions ← ask (sessions_of run.id)
    retry_or_keep run (find (λ s. is_active s.state) sessions) (last sessions)
