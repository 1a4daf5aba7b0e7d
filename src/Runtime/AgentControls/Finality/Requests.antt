-- ===== src/Runtime/AgentControls/Finality/Requests.antt =====
-- A session that has ended stays so under all requests and events but a registration under its
-- identifier, which saves the session it is given: daemon.ts registers restored sessions so.
use dark_kitchen_orchestrato.Prelude.{
  String, ◌≡◌, true, false, Option, none, some, List, [], ◌∷◌, find, All, ◌==◌,
}
use dark_kitchen_orchestrato.Prelude.Stateful.{
  pure, ◌>>=◌, bind-Keeps, then-Keeps, catch-Keeps, pure-Keeps, throw-Keeps, ask-Keeps,
  modify-Keeps, require-Keeps, if-Keeps, each-Keeps, collect-Keeps,
}
use dark_kitchen_orchestrato.Prelude.Maps
use dark_kitchen_orchestrato.Core.Runs.{RuntimeState, AgentSessionState, AgentSession, Run}
use dark_kitchen_orchestrato.Harness.RoleRouter.{HarnessRuntime}
use dark_kitchen_orchestrato.Runtime.AgentControls.{
  ReplacementAction, AgentSessionRuntimeBinding, Controls, Outside, is_active, is_terminal,
}
use dark_kitchen_orchestrato.Runtime.AgentControls.Store.{require_bound_runtime}
use dark_kitchen_orchestrato.Runtime.AgentControls.Operations.{
  Control, registering, sending, interrupting, stopping, restarting, retrying, switching, pausing,
  resuming, rerunning, happening, after, after_all, HarnessSessionEvent, follow, on_event,
}
use dark_kitchen_orchestrato.Runtime.AgentControls.RunControls.{
  Bound, pause_from, resume_from, last, pause_session, pause_active, pause_run, continue_session,
  resume_held, resume_run, retry_latest, retry_or_keep, retry_run,
}
use dark_kitchen_orchestrato.Runtime.AgentControls.Sessions.{
  RegisterAgentSessionInput, register_session, require_instruction, send_instruction,
  cancel_silently, resume, interrupt_and_send, stop_session,
}
use dark_kitchen_orchestrato.Runtime.AgentControls.Finality.{
  StartsFresh, Keyed, Past, Ended, Keep, Ended-put_session, save_binding-Keep, require_session-Keep,
  require_active_session-Keep, require_bound_runtime-Keep, require_run-Keep,
  save_session_state-Keep, touch_binding-Keep, save_run_state-Keep, audit-Keep, log-Keep, call-Keep,
}
use dark_kitchen_orchestrato.Runtime.AgentControls.Finality.Replacing.{
  start_replacement-Keep, switch_agent_profile-Keep,
}

-- No session is registered under the identifier.
abbrev pub Elsewhere : String → Control → Type 0
Elsewhere id (registering input) = (input.session.id == id) ≡ false
Elsewhere id _ = Unit {0}

module _ {outside : Outside} (past : Past outside) where
  require_instruction-Keep : (value : String) → Keep past (require_instruction outside value)
  require_instruction-Keep value = if-Keeps _ (throw-Keeps _) (pure-Keeps _)

  register_session-Keep :
      (input : RegisterAgentSessionInput)
      → (input.session.id == past.id) ≡ false
      → Keep past (register_session outside input)
  unfolding register_session
  register_session-Keep input other = then-Keeps (require-Keeps _ _) (
      bind-Keeps (ask-Keeps _) λ now.
        then-Keeps (modify-Keeps _ (λ st h. Ended-put_session past input.session st other h))
          (then-Keeps (save_binding-Keep past _) (modify-Keeps _ (λ st h. h))))

  send_instruction-Keep :
      (i instruction : String) (request_id : Option String)
      → Keep past (send_instruction outside i instruction request_id)
  unfolding send_instruction
  send_instruction-Keep i instruction request_id =
      bind-Keeps (require_instruction-Keep instruction) λ prompt.
        bind-Keeps (require_active_session-Keep past i) λ session.
          bind-Keeps (require_bound_runtime-Keep past i) λ bound. then-Keeps (require-Keeps _ _) (
            then-Keeps (call-Keep past _ _) (
              then-Keeps (touch_binding-Keep past _)
                (then-Keeps (audit-Keep past _ _ _ _ _ _) (log-Keep past _ _))))

  cancel_silently-Keep :
      (runtime : HarnessRuntime) (i : String) → Keep past (cancel_silently outside runtime i)
  unfolding cancel_silently
  cancel_silently-Keep runtime i = then-Keeps (modify-Keeps _ (λ st h. h)) (
      catch-Keeps (call-Keep past _ _) λ x. then-Keeps (modify-Keeps _ (λ st h. h)) (throw-Keeps x))

  resume-Keep : (runtime : HarnessRuntime) (i : String) → Keep past (resume outside runtime i)
  unfolding resume
  resume-Keep runtime i = call-Keep past _ _

  interrupt_and_send-Keep :
      (i instruction : String) (request_id : Option String)
      → Keep past (interrupt_and_send outside i instruction request_id)
  unfolding interrupt_and_send
  interrupt_and_send-Keep i instruction request_id =
      bind-Keeps (require_instruction-Keep instruction) λ prompt.
        bind-Keeps (require_active_session-Keep past i) λ session.
          bind-Keeps (require_bound_runtime-Keep past i) λ bound. then-Keeps (require-Keeps _ _) (
            then-Keeps (require-Keeps _ _) (
              then-Keeps (require-Keeps _ _) (
                then-Keeps (cancel_silently-Keep bound.1 i) (
                  then-Keeps (resume-Keep bound.1 i) (
                    then-Keeps (call-Keep past _ _) (
                      then-Keeps (save_session_state-Keep past session AgentSessionState.running) (
                        then-Keeps (touch_binding-Keep past _)
                          (then-Keeps (audit-Keep past _ _ _ _ _ _) (log-Keep past _ _)))))))))

  stop_session-Keep :
      (i : String) (request_id : Option String) → Keep past (stop_session outside i request_id)
  unfolding stop_session
  stop_session-Keep i request_id = bind-Keeps (require_session-Keep past i) λ session.
      if-Keeps _ (pure-Keeps _) (
        bind-Keeps (require_bound_runtime-Keep past session.id) λ bound.
          then-Keeps (require-Keeps _ _) (
            then-Keeps (call-Keep past _ _) (
              then-Keeps (save_session_state-Keep past session AgentSessionState.stopped) (
                then-Keeps (touch_binding-Keep past _)
                  (then-Keeps (audit-Keep past _ _ _ _ _ _) (log-Keep past _ _))))))

  bound_of-Keep :
      (s : AgentSession)
      → Keep past {A = Bound} (require_bound_runtime outside s.id >>= λ b. pure (s, b))
  bound_of-Keep s = bind-Keeps (require_bound_runtime-Keep past s.id) λ b. pure-Keeps _

  pause_session-Keep : (item : Bound) → Keep past (pause_session outside item)
  unfolding pause_session
  pause_session-Keep item =
      then-Keeps (cancel_silently-Keep item.1.1 item.0.id)
        (then-Keeps (save_session_state-Keep past item.0 AgentSessionState.waiting) (pure-Keeps tt))

  pause_active-Keep : (run : Run) → Keep past (pause_active outside run)
  pause_active-Keep run = bind-Keeps (ask-Keeps _) λ active.
      bind-Keeps (collect-Keeps bound_of-Keep active) λ bound.
        then-Keeps (each-Keeps (λ item. then-Keeps (require-Keeps _ _) (require-Keeps _ _)) bound) (
          then-Keeps (each-Keeps pause_session-Keep bound) (
            bind-Keeps (save_run_state-Keep past run RuntimeState.waiting)
              λ updated. then-Keeps (audit-Keep past _ _ _ _ _ _) (pure-Keeps updated)))

  pause_run-Keep : (run_id : String) → Keep past (pause_run outside run_id)
  unfolding pause_run
  pause_run-Keep run_id = bind-Keeps (require_run-Keep past run_id) λ run. paused_from run run.state
    where
      paused_from :
          (run : Run) (state : RuntimeState) → Keep past (pause_from outside run_id run state)
      paused_from run RuntimeState.waiting = pure-Keeps run
      paused_from run _ = then-Keeps (require-Keeps _ _) (pause_active-Keep run)

  continue_session-Keep : (item : Bound) → Keep past (continue_session outside item)
  unfolding continue_session
  continue_session-Keep item =
      then-Keeps (resume-Keep item.1.1 item.0.id)
        (then-Keeps (save_session_state-Keep past item.0 AgentSessionState.running) (pure-Keeps tt))

  resume_held-Keep : (run : Run) → Keep past (resume_held outside run)
  resume_held-Keep run = bind-Keeps (ask-Keeps _) λ held.
      bind-Keeps (collect-Keeps bound_of-Keep held) λ bound.
        then-Keeps (each-Keeps (λ item. require-Keeps _ _) bound) (
          then-Keeps (each-Keeps continue_session-Keep bound) (
            bind-Keeps (save_run_state-Keep past run RuntimeState.running)
              λ updated. then-Keeps (audit-Keep past _ _ _ _ _ _) (pure-Keeps updated)))

  resume_run-Keep : (run_id : String) → Keep past (resume_run outside run_id)
  unfolding resume_run
  resume_run-Keep run_id =
      bind-Keeps (require_run-Keep past run_id) λ run. resumed_from run run.state
    where
      resumed_from :
          (run : Run) (state : RuntimeState) → Keep past (resume_from outside run_id run state)
      resumed_from run RuntimeState.running = pure-Keeps run
      resumed_from run RuntimeState.waiting = resume_held-Keep run
      resumed_from run RuntimeState.blocked = resume_held-Keep run
      resumed_from run _ = throw-Keeps _

  retry_latest-Keep :
      (run : Run) (latest : AgentSession) → Keep past (retry_latest outside run latest)
  retry_latest-Keep run latest =
      bind-Keeps (start_replacement-Keep past latest.id ReplacementAction.retry _ none)
        λ replacement. bind-Keeps (ask-Keeps _) λ now. then-Keeps (modify-Keeps _ (λ st h. h)) (
          bind-Keeps (ask-Keeps _)
            λ b. then-Keeps (audit-Keep past _ _ _ _ _ _) (pure-Keeps replacement))

  retry_run-Keep : (run_id : String) → Keep past (retry_run outside run_id)
  unfolding retry_run
  retry_run-Keep run_id = bind-Keeps (require_run-Keep past run_id) λ run.
      bind-Keeps (ask-Keeps _)
        λ sessions. kept run (find (λ s. is_active s.state) sessions) (last sessions)
    where
      kept :
          (run : Run) (active latest : Option AgentSession)
          → Keep past (retry_or_keep outside run active latest)
      kept run (some active) latest = pure-Keeps active
      kept run none none = throw-Keeps _
      kept run none (some latest) = retry_latest-Keep run latest

  follow-Keep :
      (event : HarnessSessionEvent) (session : Option AgentSession)
      (b : Option AgentSessionRuntimeBinding)
      → Keep past (follow outside event session b)
  follow-Keep event (some session) (some b) = then-Keeps (save_session_state-Keep past session _) (
      bind-Keeps (ask-Keeps _) λ now.
        then-Keeps (save_binding-Keep past _)
          (if-Keeps _ (modify-Keeps _ (λ st h. h)) (pure-Keeps tt)))
  follow-Keep event (some session) none = pure-Keeps tt
  follow-Keep event none b = pure-Keeps tt

  on_event-Keep : (i : String) (event : HarnessSessionEvent) → Keep past (on_event outside i event)
  unfolding on_event
  on_event-Keep i event = bind-Keeps (ask-Keeps _) λ expected. bind-Keeps (ask-Keeps _) λ session.
      bind-Keeps (ask-Keeps _) λ b.
        if-Keeps expected (modify-Keeps _ (λ st h. h))
          (catch-Keeps (follow-Keep event session b) λ x. pure-Keeps tt)

  after-Ended :
      (c : Control) (st : Controls)
      → Elsewhere past.id c
      → Ended past st
      → Ended past (after outside c st)
  unfolding after
  after-Ended (registering input) st other = (register_session-Keep input other).run st
  after-Ended (sending i instruction request_id) st u =
      (send_instruction-Keep i instruction request_id).run st
  after-Ended (interrupting i instruction request_id) st u =
      (interrupt_and_send-Keep i instruction request_id).run st
  after-Ended (stopping i request_id) st u = (stop_session-Keep i request_id).run st
  after-Ended (restarting i request_id) st u =
      (start_replacement-Keep past i ReplacementAction.restart request_id none).run st
  after-Ended (retrying i request_id) st u =
      (start_replacement-Keep past i ReplacementAction.retry request_id none).run st
  after-Ended (switching i profile_id) st u = (switch_agent_profile-Keep past i profile_id).run st
  after-Ended (pausing run_id) st u = (pause_run-Keep run_id).run st
  after-Ended (resuming run_id) st u = (resume_run-Keep run_id).run st
  after-Ended (rerunning run_id) st u = (retry_run-Keep run_id).run st
  after-Ended (happening i event) st u = (on_event-Keep i event).run st

  after_all-Ended :
      (cs : List Control) (st : Controls)
      → All (Elsewhere past.id) cs
      → Ended past st
      → Ended past (after_all outside cs st)
  unfolding after_all
  after_all-Ended [] st o h = h
  after_all-Ended (c ∷ cs) st o h =
      after_all-Ended cs (after outside c st) o.1 (after-Ended c st o.0 h)

-- A session that has completed, failed or been stopped stays as it is, whatever requests and events
-- of sessions follow and whatever the runtimes answer, if no session is registered under its
-- identifier, the rows of sessions stand under their identifiers and the runtimes start sessions
-- under ones that no stored session has.
pub ended_session_kept :
    (outside : Outside) (id : String) (ended : AgentSession) (cs : List Control) (st : Controls)
    → StartsFresh outside
    → is_terminal ended.state ≡ true
    → Keyed st.sessions
    → Maps.get id st.sessions ≡ some ended
    → All (Elsewhere id) cs
    → Maps.get id (after_all outside cs st).sessions ≡ some ended
ended_session_kept outside id ended cs st fresh over keyed h elsewhere =
    (after_all-Ended (record { fresh = fresh; id = id; ended = ended; over = over }) cs st elsewhere
      (h, keyed)).0
