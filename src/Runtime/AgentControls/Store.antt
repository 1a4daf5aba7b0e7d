-- ===== src/Runtime/AgentControls/Store.antt =====
-- What agent-controls.ts uses of the store (packages/runtime-store-sqlite/src/store.ts), and the
-- private methods of the service that check and save.
use dark_kitchen_orchestrato.Prelude.{
  String, Bool, false, not, ◌&&◌, ◌||◌, Option, none, some, or_else, [], ◌∷◌, ◌++◌, any, ◌==◌,
  if◌then◌else◌, Result, ok, err,
}
use dark_kitchen_orchestrato.Prelude.Stateful.{
  pure, throw, ◌>>=◌, ◌>>◌, modify, ask, expect, require,
}
use dark_kitchen_orchestrato.Prelude.Sets
use dark_kitchen_orchestrato.Prelude.Maps
use Prim.Native.String.{◌++◌ as append}
use dark_kitchen_orchestrato.Core.Runs.{
  runtime_state, state_text, RuntimeState, AgentSessionState, AgentSession, Run,
}
use dark_kitchen_orchestrato.Harness.RoleRouter.{HarnessRuntime}
use dark_kitchen_orchestrato.Runtime.AgentControls.{
  ReplacementAction, action_text, AgentSessionRuntimeBinding, ExecutionNode, ControlEvent, Controls,
  session_not_found, no_binding, run_not_found, not_active, runtime_unavailable,
  unsupported_capability, store_conflict, runtime_failed, Call, M, Outside, is_active, is_terminal,
}

-- `INSERT … ON CONFLICT(id) DO UPDATE`: a stored session keeps what it belongs to.
abbrev pub updated_session : AgentSession → Option AgentSession → AgentSession
updated_session s none = s
updated_session s (some old) = record old {
  state = s.state;
  updated_at = s.updated_at;
  completed_at = s.completed_at;
}

-- `saveAgentSession`
abbrev pub put_session : AgentSession → Controls → Controls
put_session s st = record st {
  sessions = Maps.put s.id (updated_session s (Maps.get s.id st.sessions)) st.sessions;
}

abbrev pub updated_run : Run → Option Run → Run
updated_run r none = r
updated_run r (some old) = record old {
  state = r.state;
  workspace_id = r.workspace_id;
  execution_node_ids = r.execution_node_ids;
  workflow_run_id = r.workflow_run_id;
  updated_at = r.updated_at;
  completed_at = r.completed_at;
}

-- `saveRun`
abbrev pub put_run : Run → Controls → Controls
put_run r st = record st { runs = Maps.put r.id (updated_run r (Maps.get r.id st.runs)) st.runs }

-- `saveExecutionNode`, of a node that is stored.
abbrev pub put_node : ExecutionNode → Controls → Controls
put_node n st = record st { nodes = Maps.put n.id n st.nodes }

-- States are texts.
infix 4 ◌===◌
abbrev pub ◌===◌ : RuntimeState → RuntimeState → Bool
a === b = state_text a == state_text b

abbrev pub same_text : Option String → Option String → Bool
same_text (some a) (some b) = a == b
same_text _ _ = false

abbrev pub same_action : Option ReplacementAction → Option ReplacementAction → Bool
same_action (some a) (some b) = action_text a == action_text b
same_action _ _ = false

-- The two unique indices of the table.
abbrev pub clashes : AgentSessionRuntimeBinding → AgentSessionRuntimeBinding → Bool
clashes a b =
    not (a.session_id == b.session_id)
    && (same_text a.control_request_id b.control_request_id
        || (same_text a.source_session_id b.source_session_id
            && (same_action a.source_action b.source_action && a.profile_id == b.profile_id)))

abbrev pub created_by : Option AgentSessionRuntimeBinding → String → String
created_by none now = now
created_by (some old) now = old.created_at

abbrev pub completed_when : AgentSessionState → String → Option String → Option String
completed_when state now old = if is_terminal state then some now else old

-- The session in its new state, at the time `now`.
abbrev pub moved : AgentSession → AgentSessionState → String → AgentSession
moved s state now = record s {
  state = state;
  updated_at = now;
  completed_at = completed_when state now s.completed_at;
}

module _ (outside : Outside) where
  abbrev pub put_binding : AgentSessionRuntimeBinding → Controls → Controls
  put_binding b st = record st {
    bindings =
        Maps.put b.session_id
          (record b {
            initial_prompt = outside.redact_stored b.initial_prompt;
            created_at = created_by (Maps.get b.session_id st.bindings) b.created_at;
          })
          st.bindings;
  }

  -- `saveAgentSessionRuntimeBinding`
  unfoldable pub save_binding : AgentSessionRuntimeBinding → M (Unit {0})
  save_binding b = do
    taken ← ask (λ st. any (clashes b) (Maps.values st.bindings))
    require (not taken) store_conflict
    modify (put_binding b)

  -- `appendEvent` of an event: one of a known identifier is ignored.
  abbrev pub append_event : String → ControlEvent → Controls → Controls
  append_event id e st = record st {
    events = if Maps.has id st.events then st.events else Maps.put id e st.events;
  }

  -- `requireSession`
  unfoldable pub require_session : String → M AgentSession
  require_session id = do o ← ask (λ st. Maps.get id st.sessions); expect (session_not_found id) o

  -- `requireActiveSession`
  unfoldable pub require_active_session : String → M AgentSession
  require_active_session id = do
    s ← require_session id
    require (is_active s.state) (not_active id s.state)
    pure s

  -- `requireBinding`
  unfoldable pub require_binding : String → M AgentSessionRuntimeBinding
  require_binding id = do o ← ask (λ st. Maps.get id st.bindings); expect (no_binding id) o

  abbrev exact : String → Option HarnessRuntime → Option HarnessRuntime
  exact id none = none
  exact id (some r) = if r.id == id then some r else none

  -- `requireExactRuntime`
  abbrev pub require_exact_runtime : AgentSessionRuntimeBinding → M HarnessRuntime
  require_exact_runtime b =
      expect (runtime_unavailable b.runtime_id)
        (exact b.runtime_id (outside.resolve_runtime b.runtime_id b.runtime_kind))

  -- `requireBoundRuntime`
  unfoldable pub require_bound_runtime : String → M (AgentSessionRuntimeBinding × HarnessRuntime)
  require_bound_runtime id = do b ← require_binding id; r ← require_exact_runtime b; pure (b, r)

  -- `requireCapability`
  abbrev pub require_capability : HarnessRuntime → String → M (Unit {0})
  require_capability r capability =
      require (Sets.has capability r.supported) (unsupported_capability capability r.id)

  -- `requireRun`
  unfoldable pub require_run : String → M Run
  require_run id = do o ← ask (λ st. Maps.get id st.runs); expect (run_not_found id) o

  -- `saveSessionState`
  unfoldable pub save_session_state : AgentSession → AgentSessionState → M AgentSession
  save_session_state session state = do
    current ← ask (λ st. or_else (Maps.get session.id st.sessions) session)
    now ← ask outside.now
    if (runtime_state current.state === runtime_state state) || is_terminal current.state
        then pure current
        else modify (put_session (moved current state now)) >> pure (moved current state now)

  -- `touchBinding`
  unfoldable pub touch_binding : AgentSessionRuntimeBinding → M (Unit {0})
  touch_binding b = do
    now ← ask outside.now
    save_binding (record b { last_activity_at = now; updated_at = now })

  -- `saveRunState`
  unfoldable pub save_run_state : Run → RuntimeState → M Run
  save_run_state run state = do
    now ← ask outside.now
    modify (put_run (record run { state = state; updated_at = now }))
    pure (record run { state = state; updated_at = now })

  -- `audit`
  unfoldable pub audit :
      String
      → Option String
      → Option AgentSessionRuntimeBinding
      → Option String
      → String
      → Option String
      → M (Unit {0})
  audit action session_id binding request_id run_id resulting = do
    fresh ← ask outside.create_request_id
    now ← ask outside.now
    modify (
        append_event
          (append "agent-control:" (append (or_else request_id fresh) (append ":" action)))
          (record {
            request_id = or_else request_id fresh;
            action = action;
            session_id = session_id;
            resulting_session_id = resulting;
            run_id = run_id;
            binding = binding;
            occurred_at = now;
          }))

  -- `log`
  abbrev pub log : String → String → M (Unit {0})
  log session_id action =
      modify (λ st. record st { control_log = st.control_log ++ (session_id, action) ∷ [] })

  -- A call of a runtime, which may fail.
  abbrev pub answered : {A : Type 0} → Result String A → M A
  answered (ok a) = pure a
  answered (err e) = throw (runtime_failed e)

  abbrev pub call : {A : Type 0} → Call → (Controls → Result String A) → M A
  call c answer = do a ← ask answer; modify (λ st. record st { calls = c ∷ st.calls }); answered a
