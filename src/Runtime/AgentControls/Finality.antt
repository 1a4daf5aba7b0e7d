-- ===== src/Runtime/AgentControls/Finality.antt =====
-- Sessions that have ended, under what agent-controls.ts saves: the steps all operations share.
pub mod Replacing
pub mod Requests
use dark_kitchen_orchestrato.Prelude.{
  String, ◌≡◌, refl, sym, ◌∙◌, ap, Bool, true, false, not, ◌&&◌, ◌||◌, Option, none, some, or_else,
  is_some, List, [], ◌∷◌, filter, find, ◌==◌, if◌then◌else◌, Result, ok, err, arith, eq_iff,
  Bool-cases, inl, inr,
}
use dark_kitchen_orchestrato.Prelude.Stateful.{
  pure, throw, ◌>>=◌, ◌>>◌, continue, catch, modify, ask, expect, require, each, collect, Keeps,
  bind-Keeps, then-Keeps, catch-Keeps, attempt-Keeps, pure-Keeps, throw-Keeps, ask-Keeps,
  modify-Keeps, expect-Keeps, require-Keeps, if-Keeps, each-Keeps, collect-Keeps,
}
use dark_kitchen_orchestrato.Prelude.Sets
use dark_kitchen_orchestrato.Prelude.Maps
use dark_kitchen_orchestrato.Core.Runs.{
  runtime_state, state_text, RuntimeState, AgentSessionState, AgentSession, Run,
}
use dark_kitchen_orchestrato.Harness.RoleRouter.{HarnessProfile, HarnessRuntime}
use dark_kitchen_orchestrato.Runtime.AgentControls.{
  ReplacementAction, action_text, Snapshot, AgentSessionRuntimeBinding, ExecutionNode, ControlEvent,
  Call, FailureKind, RuntimeFailure, Controls, ControlError, M, HarnessSessionState,
  to_agent_session_state, StartSessionInput, ResolvedControlTarget, Outside, is_active, is_terminal,
  is_terminal_run, restart, retry, switch_profile, stored_profile, invalid_snapshot, sent,
  cancelled, resumed, stopped, started, auth, quota, rate_limit, stuck_agent, agent_failure,
  session_not_found, no_binding, run_not_found, run_is_terminal, nothing_to_retry, not_active,
  not_stopped, cannot_resume, runtime_unavailable, request_already_used, runtime_failed,
  unsupported_capability, empty_instruction, invalid_profile, reused_session_id, store_conflict,
  unregistrable, profile_unavailable, no_profile_switching, wrong_runtime_kind, session_state,
  paused,
}
use dark_kitchen_orchestrato.Runtime.AgentControls.Store.{
  ◌===◌, updated_session, put_session, updated_run, put_run, put_node, same_text, same_action,
  clashes, completed_when, moved, put_binding, save_binding, append_event, require_session,
  require_active_session, require_binding, require_exact_runtime, require_bound_runtime,
  require_capability, require_run, save_session_state, touch_binding, save_run_state, audit, log,
  answered, call,
}
use dark_kitchen_orchestrato.Runtime.AgentControls.Rows.{
  is_given, replaces, first_replacement, candidates, find_existing_replacement,
  require_harness_profile, first_of, nonempty, replacement_of, replacement_binding, reassigned,
  rerun, subscribe_to,
}
use dark_kitchen_orchestrato.Runtime.AgentControls.Replacement.{
  stop_quietly, winner_or, settle, bind_replacement, adopt, runtime_of, target_profile, start_new,
  or_start, start_replacement, checked_target, switch_agent_profile,
}
use dark_kitchen_orchestrato.Runtime.AgentControls.Operations.{
  Control, registering, sending, interrupting, stopping, restarting, retrying, switching, pausing,
  resuming, rerunning, happening, after, after_all, HarnessSessionEvent, report, report_failure,
  follow, on_event,
}
use dark_kitchen_orchestrato.Runtime.AgentControls.RunControls.{
  Bound, pause_from, resume_from, last, sessions_of, pause_session, pause_active, pause_run,
  continue_session, resume_held, resume_run, retry_latest, retry_or_keep, retry_run,
}
use dark_kitchen_orchestrato.Runtime.AgentControls.Sessions.{
  RegisterAgentSessionInput, suppress, unsuppress, require_instruction, register_session,
  send_instruction, cancel_silently, resume, interrupt_and_send, stop_bound, stop_session,
}

-- A runtime that starts a session gives it an identifier that no stored session has.
abbrev pub StartsFresh : Outside → Type 0
StartsFresh outside =
    (st : Controls) (runtime : HarnessRuntime) (input : StartSessionInput)
    (begun : String × HarnessSessionState)
    → outside.start_session st runtime input ≡ ok begun
    → Maps.get begun.0 st.sessions ≡ none

-- Rows stand under their identifiers.
abbrev pub Keyed : List (String × AgentSession) → Type 0
Keyed rows = (k : String) (s : AgentSession) → Maps.get k rows ≡ some s → s.id ≡ k

updated_session-id :
    (s : AgentSession) (rows : List (String × AgentSession)) (o : Option AgentSession)
    → Maps.get s.id rows ≡ o
    → Keyed rows
    → (updated_session s o).id ≡ s.id
updated_session-id s rows none h keyed = refl
updated_session-id s rows (some old) h keyed = keyed s.id old h

Keyed-put_session :
    (s : AgentSession) (st : Controls) → Keyed st.sessions → Keyed (put_session s st).sessions
Keyed-put_session s st keyed k t h =
    let now =
      rw (Maps.get-put s.id k (updated_session s (Maps.get s.id st.sessions)) st.sessions) at h in
    elim (Bool-cases (s.id == k)) [
      | inl same ↦
          let found = rw same at now in
          sym (ap (λ o. (or_else o s).id) found)
          ∙ (updated_session-id s st.sessions (Maps.get s.id st.sessions) refl keyed
              ∙ (eq_iff s.id k).0 same)
      | inr other ↦ keyed k t (rw other at now)
    ]

-- A session that has ended, and runtimes that start fresh ones.
pub record Past (outside : Outside) : Type 0 where
  pub fresh : StartsFresh outside
  pub id : String
  pub ended : AgentSession
  pub over : is_terminal ended.state ≡ true

module _ {outside : Outside} (past : Past outside) where
  -- The session is stored as it ended.
  abbrev pub Ended : Controls → Type 0
  Ended st = (Maps.get past.id st.sessions ≡ some past.ended) × Keyed st.sessions

  abbrev pub Keep : {A : Type 0} → M A → Type 0
  Keep m = Keeps Ended m

  pub Ended-put_session :
      (s : AgentSession) (st : Controls)
      → (s.id == past.id) ≡ false
      → Ended st
      → Ended (put_session s st)
  Ended-put_session s st other h = (
    rw
        (
          Maps.get-put s.id past.id (updated_session s (Maps.get s.id st.sessions)) st.sessions,
          other,
        )
        h.0,
    Keyed-put_session s st h.1,
  )

  pub save_binding-Keep : (b : AgentSessionRuntimeBinding) → Keep (save_binding outside b)
  unfolding save_binding
  save_binding-Keep b =
      bind-Keeps (ask-Keeps _) λ taken. then-Keeps (require-Keeps _ _) (modify-Keeps _ (λ st h. h))

  pub require_session-Keep : (i : String) → Keep (require_session outside i)
  unfolding require_session
  require_session-Keep i = bind-Keeps (ask-Keeps _) λ o. expect-Keeps _ _

  pub require_active_session-Keep : (i : String) → Keep (require_active_session outside i)
  unfolding require_active_session
  require_active_session-Keep i =
      bind-Keeps (require_session-Keep i) λ s. then-Keeps (require-Keeps _ _) (pure-Keeps _)

  pub require_binding-Keep : (i : String) → Keep (require_binding outside i)
  unfolding require_binding
  require_binding-Keep i = bind-Keeps (ask-Keeps _) λ o. expect-Keeps _ _

  pub require_bound_runtime-Keep : (i : String) → Keep (require_bound_runtime outside i)
  unfolding require_bound_runtime
  require_bound_runtime-Keep i =
      bind-Keeps (require_binding-Keep i) λ b. bind-Keeps (expect-Keeps _ _) λ r. pure-Keeps _

  pub require_run-Keep : (i : String) → Keep (require_run outside i)
  unfolding require_run
  require_run-Keep i = bind-Keeps (ask-Keeps _) λ o. expect-Keeps _ _

  -- The session that is looked up has not ended, so it is another.
  current_other :
      (s : AgentSession) (st : Controls) (o : Option AgentSession)
      → Ended st
      → Maps.get s.id st.sessions ≡ o
      → is_terminal (or_else o s).state ≡ false
      → ((or_else o s).id == past.id) ≡ false
  current_other s st none h n unended = elim (Bool-cases (s.id == past.id)) [
    | inl same ↦
        let found : none ≡ some past.ended =
          sym n ∙ (ap (λ k. Maps.get k st.sessions) ((eq_iff s.id past.id).0 same) ∙ h.0) in
        absurd (cc)
    | inr other ↦ other
  ]
  current_other s st (some c) h n unended = elim (Bool-cases (c.id == past.id)) [
    | inl same ↦
        let here : s.id ≡ past.id = sym (h.1 s.id c n) ∙ (eq_iff c.id past.id).0 same in
        let found : some c ≡ some past.ended =
          sym n ∙ (ap (λ k. Maps.get k st.sessions) here ∙ h.0) in
        let true_here : is_terminal c.state ≡ true =
          ap (λ o. is_terminal (or_else o c).state) found ∙ past.over in
        absurd (cc)
    | inr other ↦ other
  ]

  pub save_session_state-Keep :
      (s : AgentSession) (state : AgentSessionState) → Keep (save_session_state outside s state)
  unfolding save_session_state ◌>>=◌ ◌>>◌ ask modify pure
  save_session_state-Keep s state = record { run = saved }
    where
      saved : (st : Controls) → Ended st → Ended (save_session_state outside s state st).1
      saved st h =
          let current = or_else (Maps.get s.id st.sessions) s in
          elim (Bool-cases
            ((runtime_state current.state === runtime_state state) || is_terminal current.state)) [
              | inl stays ↦ rw stays h
              | inr moves ↦ rw moves (
                  Ended-put_session (moved current state (outside.now st)) st
                    (current_other s st (Maps.get s.id st.sessions) h refl (ground (arith, moves)))
                    h)
            ]

  pub touch_binding-Keep : (b : AgentSessionRuntimeBinding) → Keep (touch_binding outside b)
  unfolding touch_binding
  touch_binding-Keep b = bind-Keeps (ask-Keeps _) λ now. save_binding-Keep _

  pub save_run_state-Keep :
      (run : Run) (state : RuntimeState) → Keep (save_run_state outside run state)
  unfolding save_run_state
  save_run_state-Keep run state =
      bind-Keeps (ask-Keeps _) λ now. then-Keeps (modify-Keeps _ (λ st h. h)) (pure-Keeps _)

  pub audit-Keep :
      (action : String) (session_id : Option String) (b : Option AgentSessionRuntimeBinding)
      (request_id : Option String) (run_id : String) (resulting : Option String)
      → Keep (audit outside action session_id b request_id run_id resulting)
  unfolding audit
  audit-Keep action session_id b request_id run_id resulting =
      bind-Keeps (ask-Keeps _) λ i. bind-Keeps (ask-Keeps _) λ now. modify-Keeps _ (λ st h. h)

  pub log-Keep : (i action : String) → Keep (log outside i action)
  log-Keep i action = modify-Keeps _ (λ st h. h)

  answered-Keep : {A : Type 0} (a : Result String A) → Keep (answered outside a)
  answered-Keep (ok a) = pure-Keeps a
  answered-Keep (err x) = throw-Keeps _

  pub call-Keep :
      {A : Type 0} (c : Call) (answer : Controls → Result String A) → Keep (call outside c answer)
  call-Keep c answer =
      bind-Keeps (ask-Keeps _) λ a. then-Keeps (modify-Keeps _ (λ st h. h)) (answered-Keep a)
