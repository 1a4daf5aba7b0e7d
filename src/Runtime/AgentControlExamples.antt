-- ===== src/Runtime/AgentControlExamples.antt =====
-- Small runs of packages/runtime/src/agent-controls.ts.
use dark_kitchen_orchestrato.Prelude.{
  String, ◌≡◌, refl, ap, sym, ◌∙◌, subst, or_else, true, Option, none, some, List, [], ◌∷◌, map,
  Result, ok, err, Bool-cases, eq_iff, arith, inl, inr, ◌==◌,
}
use dark_kitchen_orchestrato.Prelude.Sets
use dark_kitchen_orchestrato.Prelude.Maps
use dark_kitchen_orchestrato.Prelude.Stateful.{
  ◌>>=◌, ◌>>◌, pure, throw, ask, modify, expect, require, catch, attempt,
}
use dark_kitchen_orchestrato.Core.Runs.{AgentSessionState, AgentSession}
use dark_kitchen_orchestrato.Harness.RoleRouter.{HarnessProfile, HarnessRuntime}
use dark_kitchen_orchestrato.Runtime.AgentControls.{
  retry, AgentSessionRuntimeBinding, stored_profile, Controls, ControlError, Snapshot,
  invalid_snapshot, store_conflict, HarnessSessionState, session_state, Outside, agent_failure,
}
use dark_kitchen_orchestrato.Runtime.AgentControls.Store.{
  save_binding, require_session, require_binding, save_session_state, audit,
}
use dark_kitchen_orchestrato.Runtime.AgentControls.Rows.{find_existing_replacement}
use dark_kitchen_orchestrato.Runtime.AgentControls.Replacement.{
  settle, adopt, start_new, start_replacement,
}
use dark_kitchen_orchestrato.Runtime.AgentControls.Operations.{
  Control, registering, retrying, happening, HarnessSessionEvent, on_event, after, after_all,
}
use dark_kitchen_orchestrato.Runtime.AgentControls.Sessions.{
  RegisterAgentSessionInput, register_session,
}
use dark_kitchen_orchestrato.Runtime.AgentControls.Repetition.{start_replacement_again}
use dark_kitchen_orchestrato.Runtime.AgentControls.Finality.{StartsFresh, Keyed}
use dark_kitchen_orchestrato.Runtime.AgentControls.Finality.Requests.{ended_session_kept}

abbrev profile : HarnessProfile
profile = record {
  managed = true;
  id = "p";
  kind = "acp";
  model = none;
  reasoning = none;
  skills = none;
  mcp_servers = none;
  plugins = none;
}

abbrev runtime : HarnessRuntime
runtime = record { id = "r"; kind = "acp"; supported = "sessions.cancel" ∷ [] }

-- The one session that a runtime starts is `new`.
abbrev start_answer : Option AgentSession → Result String (String × HarnessSessionState)
start_answer none = ok ("new", session_state AgentSessionState.running)
start_answer (some s) = err "taken"

abbrev outside : Outside
outside = record {
  resolve_runtime = λ i kind. some runtime;
  resolve_profile = none;
  now = λ st. "t2";
  create_request_id = λ st. "q1";
  reports = true;
  send_prompt = λ st rt i prompt. ok tt;
  cancel_session = λ st rt i. ok tt;
  resume_session = λ st rt i. ok tt;
  stop_session = λ st rt i. ok tt;
  start_session = λ st rt input. start_answer (Maps.get "new" st.sessions);
  trim = λ s. s;
  redact = λ s. s;
  redact_stored = λ s. s;
  shorten = λ s. s;
  classify = λ s. agent_failure;
}

abbrev old_session : AgentSession
old_session = record {
  id = "old";
  run_id = "run";
  task_id = "task";
  execution_node_id = "node";
  workspace_id = "ws";
  state = AgentSessionState.stopped;
  created_at = "t0";
  updated_at = "t1";
  completed_at = some "t1";
}

abbrev old_binding : AgentSessionRuntimeBinding
old_binding = record {
  session_id = "old";
  runtime_id = "r";
  runtime_kind = "acp";
  profile_id = "p";
  profile_snapshot = stored_profile profile;
  initial_prompt = "do it";
  role_id = none;
  model = none;
  reasoning = none;
  last_activity_at = "t0";
  last_error = none;
  source_session_id = none;
  source_action = none;
  control_request_id = none;
  created_at = "t0";
  updated_at = "t0";
}

abbrev controls : Controls
controls = record {
  sessions = ("old", old_session) ∷ [];
  bindings = ("old", old_binding) ∷ [];
  nodes = [];
  runs = [];
  events = [];
  suppressed_cancellation_events = [];
  control_log = [];
  subscribed = [];
  reported = [];
  calls = [];
}

abbrev failed_event : HarnessSessionEvent
failed_event = record { state = session_state AgentSessionState.failed; error = none }

abbrev running_event : HarnessSessionEvent
running_event = record { state = session_state AgentSessionState.running; error = none }

abbrev another : RegisterAgentSessionInput
another = record {
  session = record old_session {
    id = "another";
    state = AgentSessionState.running;
    completed_at = none;
  };
  runtime = runtime;
  profile = profile;
  initial_prompt = "do that";
  role_id = none;
  model = none;
  reasoning = none;
}

abbrev history : List Control
history =
    registering another
    ∷ retrying "old" none
    ∷ happening "old" running_event
    ∷ happening "new" failed_event
    ∷ happening "new" running_event
    ∷ []

new_session_failed :
    map (λ row. row.1.state) (after_all outside history controls).sessions
    ≡ AgentSessionState.stopped ∷ AgentSessionState.running ∷ AgentSessionState.failed ∷ []
unfolding after_all after register_session start_replacement start_new adopt settle
    find_existing_replacement save_binding require_session require_binding save_session_state audit
    on_event ◌>>=◌ ◌>>◌ pure throw ask modify expect require catch attempt Maps.get Maps.put
    Sets.has
new_session_failed = refl

abbrev value_of : {E A : Type 0} → Result E A → Option A
value_of (ok a) = some a
value_of (err x) = none

-- The binding of a replacement without its session, as a stop between the two saves leaves it.
abbrev orphaned : Controls
orphaned = record controls {
  bindings =
      ("old", old_binding)
      ∷ (
        "lost",
        record old_binding {
          session_id = "lost";
          source_session_id = some "old";
          source_action = some retry;
        },
      )
      ∷ [];
}

orphan_blocks : (start_replacement outside "old" retry none none orphaned).0 ≡ err store_conflict
unfolding start_replacement start_new adopt find_existing_replacement save_binding require_session
    require_binding ◌>>=◌ ◌>>◌ pure throw ask modify expect require catch attempt Maps.get
orphan_blocks = refl

starts_fresh : StartsFresh outside
starts_fresh st rt input begun = answers (Maps.get "new" st.sessions) refl
  where
    answers :
        (o : Option AgentSession)
        → Maps.get "new" st.sessions ≡ o
        → start_answer o ≡ ok begun
        → Maps.get begun.0 st.sessions ≡ none
    answers none n h =
        let name : "new" ≡ begun.0 = ap (λ x. (or_else (value_of x) begun).0) h in
        subst (λ k. Maps.get k st.sessions ≡ none) name n
    answers (some s) n h = absurd (cc)

keyed : Keyed controls.sessions
unfolding Maps.get
keyed k s h = elim (Bool-cases ("old" == k)) [
  | inl same ↦ ground (arith, eq_iff "old" k, rw same at h)
  | inr other ↦ absurd (ground (arith, rw other at h))
]

there : Maps.get "old" controls.sessions ≡ some old_session
unfolding Maps.get
there = refl

ended_session_kept_example :
    Maps.get "old" (after_all outside history controls).sessions ≡ some old_session
ended_session_kept_example =
    ended_session_kept outside "old" old_session history controls starts_fresh refl keyed there
      (refl, (tt, (tt, (tt, (tt, tt)))))

abbrev retried : Result ControlError AgentSession × Controls
retried = start_replacement outside "old" retry none none controls

abbrev new_session : AgentSession
new_session = record old_session {
  id = "new";
  state = AgentSessionState.running;
  created_at = "t2";
  updated_at = "t2";
  completed_at = none;
}

was_retried : retried.0 ≡ ok new_session
unfolding start_replacement start_new adopt settle find_existing_replacement save_binding
    require_session require_binding audit ◌>>=◌ ◌>>◌ pure throw ask modify expect require catch
    attempt Maps.get Maps.put
was_retried = refl

abbrev snapshot_id : Snapshot → String
snapshot_id (stored_profile p) = p.id
snapshot_id invalid_snapshot = ""

same_profile :
    (b : AgentSessionRuntimeBinding) (p : HarnessProfile)
    → Maps.get "old" controls.bindings ≡ some b
    → b.profile_snapshot ≡ stored_profile p
    → p.id ≡ b.profile_id
unfolding Maps.get
same_profile b p h k =
    let e : old_binding ≡ b = ap (λ o. or_else o old_binding) h in
    sym (ap snapshot_id k)
    ∙ (sym (ap (λ c. snapshot_id c.profile_snapshot) e) ∙ ap (λ c. c.profile_id) e)

start_replacement_again_example :
    start_replacement outside "old" retry none none retried.1 ≡ (ok new_session, retried.1)
start_replacement_again_example =
    start_replacement_again outside "old" retry none none controls retried.1 new_session
      starts_fresh keyed same_profile (ap (λ x. (x, retried.1)) was_retried)
