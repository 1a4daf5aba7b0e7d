-- ===== src/Runtime/AgentControls/Rows.antt =====
-- The rows that a replacement in agent-controls.ts reads and writes.
use dark_kitchen_orchestrato.Prelude.{
  String, Bool, true, false, not, ◌&&◌, ◌||◌, Option, none, some, or_else, is_some, List, [], ◌∷◌,
  filter, ◌==◌, if◌then◌else◌,
}
use dark_kitchen_orchestrato.Prelude.Stateful.{pure, throw, ◌>>=◌, ◌>>◌, ask, require}
use dark_kitchen_orchestrato.Prelude.Maps
use dark_kitchen_orchestrato.Core.Runs.{
  runtime_state, RuntimeState, AgentSession, runtime_state, Run,
}
use dark_kitchen_orchestrato.Harness.RoleRouter.{HarnessProfile, HarnessRuntime}
use dark_kitchen_orchestrato.Runtime.AgentControls.{
  ReplacementAction, Snapshot, stored_profile, invalid_snapshot, AgentSessionRuntimeBinding,
  ExecutionNode, Controls, request_already_used, invalid_profile, M, HarnessSessionState,
  to_agent_session_state, StartSessionInput, ResolvedControlTarget,
}
use dark_kitchen_orchestrato.Runtime.AgentControls.Store.{
  ◌===◌, put_node, put_run, same_text, same_action, completed_when,
}

abbrev pub is_given : Option String → Bool
is_given none = false
is_given (some s) = not (s == "")

abbrev pub replaces : AgentSession → ReplacementAction → String → AgentSessionRuntimeBinding → Bool
replaces source action profile_id b =
    same_text b.source_session_id (some source.id)
    && (same_action b.source_action (some action) && b.profile_id == profile_id)

-- The first stored session of the bindings that replace the source.
abbrev pub first_replacement :
    (AgentSessionRuntimeBinding → Bool)
    → List (String × AgentSession)
    → List AgentSessionRuntimeBinding
    → Option AgentSession
first_replacement p sessions [] = none
first_replacement p sessions (b ∷ bs) =
    let rest = first_replacement p sessions bs in
    if p b && is_some (Maps.get b.session_id sessions) then Maps.get b.session_id sessions else rest

-- `listAgentSessionRuntimeBindings`
abbrev pub candidates :
    AgentSession → Option String → List AgentSessionRuntimeBinding → List AgentSessionRuntimeBinding
candidates source request_id bs =
    if is_given request_id
    then filter (λ b. same_text b.control_request_id request_id) bs
    else filter (λ b. same_text b.source_session_id (some source.id)) bs

abbrev is_empty : List AgentSessionRuntimeBinding → Bool
is_empty [] = true
is_empty _ = false

-- `findExistingReplacement`
unfoldable pub find_existing_replacement :
    AgentSession → ReplacementAction → String → Option String → M (Option AgentSession)
find_existing_replacement source action profile_id request_id = do
  found ← ask (λ st. candidates source request_id (Maps.values st.bindings))
  existing ← ask (λ st. first_replacement (replaces source action profile_id) st.sessions found)
  require (is_some existing || (not (is_given request_id) || is_empty found))
      (request_already_used (or_else request_id ""))
  pure existing

-- `requireHarnessProfile`
abbrev pub require_harness_profile : Snapshot → M HarnessProfile
require_harness_profile (stored_profile p) = pure p
require_harness_profile invalid_snapshot = throw invalid_profile

abbrev pub first_of : Option String → Option String → Option String
first_of none b = b
first_of (some a) b = some a

abbrev pub profile_of : Option ResolvedControlTarget → AgentSessionRuntimeBinding → String
profile_of none b = b.profile_id
profile_of (some t) b = t.profile.id

-- A text that is not empty.
abbrev pub nonempty : Option String → Option String
nonempty none = none
nonempty (some s) = if s == "" then none else some s

-- The session that stands for the source.
abbrev pub replacement_of : AgentSession → String → HarnessSessionState → String → AgentSession
replacement_of source id state now = record source {
  id = id;
  state = to_agent_session_state state;
  created_at = now;
  updated_at = now;
  completed_at = completed_when (to_agent_session_state state) now none;
}

abbrev pub replacement_binding :
    AgentSession
    → AgentSessionRuntimeBinding
    → ReplacementAction
    → Option String
    → HarnessRuntime
    → StartSessionInput
    → String
    → String
    → AgentSessionRuntimeBinding
replacement_binding source b action request_id runtime input id now = record {
  session_id = id;
  runtime_id = runtime.id;
  runtime_kind = runtime.kind;
  profile_id = input.profile.id;
  profile_snapshot = stored_profile input.profile;
  initial_prompt = b.initial_prompt;
  role_id = nonempty b.role_id;
  model = input.model;
  reasoning = input.reasoning;
  last_activity_at = now;
  last_error = none;
  source_session_id = some source.id;
  source_action = some action;
  control_request_id = nonempty request_id;
  created_at = now;
  updated_at = now;
}

-- The execution node of a session now runs its replacement.
abbrev pub reassigned : Option ExecutionNode → AgentSession → String → Controls → Controls
reassigned none r now st = st
reassigned (some n) r now st =
    put_node
      (record n { agent_session_id = some r.id; state = runtime_state r.state; updated_at = now })
      st

-- A run that is not running runs again.
abbrev pub rerun : Option Run → String → Controls → Controls
rerun none now st = st
rerun (some run) now st =
    if run.state === RuntimeState.running
    then st
    else put_run
        (record run { state = RuntimeState.running; updated_at = now; completed_at = none }) st

abbrev pub subscribe_to : String → Controls → Controls
subscribe_to id st = record st { subscribed = id ∷ st.subscribed }
