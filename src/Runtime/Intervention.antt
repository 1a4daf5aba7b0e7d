-- ===== src/Runtime/Intervention.antt =====
-- The record of an intervention in packages/core/src/domain.ts, and the inputs of the service of
-- packages/runtime/src/interventions.ts with their checks.
use Prim.Native.Char.{code}
use dark_kitchen_orchestrato.Prelude.{
  ℕ, ◌+◌, String, Bool, true, false, not, ◌&&◌, Option, none, some, Result, guard, ◌>>◌, ◌==◌, ltb,
  leb, if◌then◌else◌,
}
use dark_kitchen_orchestrato.Core.Ids.{is_space, is_blank}

pub data InterventionScope : Type 0 where
  task run agent : InterventionScope

pub data InterventionKind : Type 0 where
  product_decision missing_access destructive_action approval auth quota rate_limit agent_failure :
      InterventionKind
  merge_conflict stuck_agent manual_intervention : InterventionKind

pub data InterventionStatus : Type 0 where
  opened acknowledged resolved dismissed : InterventionStatus

pub record Intervention : Type 0 where
  pub id : String
  pub scope : InterventionScope
  pub target_id : String
  pub kind : InterventionKind
  pub status : InterventionStatus
  pub summary : String
  pub details : Option String
  pub created_at : String
  pub updated_at : String
  pub resolved_at : Option String

unfoldable pub InterventionScope-discrete : Discrete InterventionScope
InterventionScope-discrete = hlevel

unfoldable pub InterventionKind-discrete : Discrete InterventionKind
InterventionKind-discrete = hlevel

pub record CreateInterventionInput : Type 0 where
  pub scope : InterventionScope
  pub target_id : String
  pub kind : InterventionKind
  pub summary : String
  pub details : Option String
  pub deduplication_key : Option String

pub data ResolutionAction : Type 0 where
  retry switch_harness approve stop free_text : ResolutionAction

pub record ResolveInterventionInput : Type 0 where
  pub intervention_id : String
  pub action : ResolutionAction
  pub answer : Option String
  pub resolved_by : Option String

pub data InterventionError : Type 0 where
  empty_target empty_summary long_summary long_details long_key long_answer long_resolver :
      InterventionError
  not_found : String → InterventionError
  cannot_resolve : InterventionStatus → InterventionError

-- `value.length`, which counts UTF-16 code units.
unfoldable pub text_length : String → ℕ
text_length String.[] = 0
text_length (String.◌∷◌ c s) = (if ltb 0xffff (code c) then 2 else 1) + text_length s

-- `value.trim()`
unfoldable pub trim_start : String → String
trim_start String.[] = String.[]
trim_start (String.◌∷◌ c s) =
    let rest = trim_start s in if is_space (code c) then rest else String.◌∷◌ c s

unfoldable pub trim_end : String → String
trim_end String.[] = String.[]
trim_end (String.◌∷◌ c s) =
    let rest = trim_end s in if is_blank (String.◌∷◌ c s) then String.[] else String.◌∷◌ c rest

abbrev pub trim : String → String
trim s = trim_end (trim_start s)

-- `x ? … : undefined` for an optional text: the empty text counts as none.
abbrev pub if_any : Option String → Option String
if_any none = none
if_any (some t) = if t == "" then none else some t

abbrev pub is_longer : Option String → ℕ → Bool
is_longer none n = false
is_longer (some t) n = ltb n (text_length t)

-- `validateCreateInput`
unfoldable pub validate_create_input : CreateInterventionInput → Result InterventionError (Unit {0})
validate_create_input input = do
  guard (not (is_blank input.target_id)) empty_target
  guard (not (is_blank input.summary)) empty_summary
  guard (leb (text_length input.summary) 16000) long_summary
  guard (not (is_longer input.details 64000)) long_details
  guard (not (is_longer input.deduplication_key 2000)) long_key

-- `validateResolveInput`; the action is one of the five by its type.
unfoldable pub validate_resolve_input :
    ResolveInterventionInput → Result InterventionError (Unit {0})
validate_resolve_input input = do
  guard (not (is_longer input.answer 64000)) long_answer
  guard (not (is_longer input.resolved_by 500)) long_resolver

-- `status === 'open' || status === 'acknowledged'`
abbrev pub is_active : InterventionStatus → Bool
is_active opened = true
is_active acknowledged = true
is_active _ = false

unfoldable pub same_nature : InterventionKind → InterventionScope → String → Intervention → Bool
same_nature kind scope target i =
    is_active i.status
    && elim (InterventionKind-discrete i.kind kind) [ yes e ↦ true | no n ↦ false ]
    && elim (InterventionScope-discrete i.scope scope) [ yes e ↦ true | no n ↦ false ]
    && (i.target_id == target)
