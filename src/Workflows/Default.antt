-- ===== src/Workflows/Default.antt =====
-- The shared parts of packages/workflows/src/default.ts, and `requireWorkflowApproval` of
-- packages/workflows/src/approval-gate.ts. Agents and the gate answer what they are asked after the
-- calls so far; prompts and contexts are left out.
pub mod Stages
pub mod Flows
pub mod Rules
pub mod Approval
pub mod Success
pub mod Bounds
use Prim.Native.String.{◌++◌ as append}
use dark_kitchen_orchestrato.Prelude.{
  ℕ, suc, zero, String, Bool, true, false, not, ◌&&◌, ◌||◌, Option, none, some, or_else, List, [],
  ◌∷◌, ◌==◌, leb, Result, ok, err, if◌then◌else◌,
}
use dark_kitchen_orchestrato.Prelude.Stateful.{Stateful}
use dark_kitchen_orchestrato.Workflows.Verdicts.{Value, Verdict}
unfoldable pub use dark_kitchen_orchestrato.Prelude.Stateful.{pure, throw, ◌>>=◌, ◌>>◌}

-- What a durable gate says.
pub data Resolution : Type 0 where
  pending : Option String → Resolution
  approved : Option String → Option String → Resolution
  rejected : Option String → Resolution

pub data Failure : Type 0 where
  agent_failed : String → Failure
  gate_failed : String → Failure
  bad_limit bad_delay : Failure
  intervention_required : String → Option String → Failure

-- A call of an agent in a phase, or of the gate, with its answer.
pub data Event : Type 0 where
  called : String → String → Result String Value → Event
  asked : String → Result String Resolution → Event

-- The calls so far, the last one first.
abbrev pub Trace : Type 0
Trace = List Event

-- `ask` is the agent of a role in a phase; `text_of` is `String(x ?? '')`, `number` a numeral.
pub record Host : Type 0 where
  pub ask : Trace → String → String → Result String Value
  pub gate : Trace → String → Result String Resolution
  pub text_of : Value → String
  pub number : ℕ → String

abbrev pub M : Type 0 → Type 0
M A = Stateful Failure Trace A

abbrev pub answer_of : Result String Value → Result Failure Value
answer_of (ok v) = ok v
answer_of (err e) = err (agent_failed e)

-- A decision of the gate; a pending one stops the workflow.
pub data Decision : Type 0 where
  granted : Option String → Option String → Decision
  refused : Option String → Decision

abbrev pub decision_of : String → Result String Resolution → Result Failure Decision
decision_of gate_id (ok (pending id)) = err (intervention_required gate_id id)
decision_of gate_id (ok (approved id by)) = ok (granted id by)
decision_of gate_id (ok (rejected reason)) = ok (refused reason)
decision_of gate_id (err e) = err (gate_failed e)

-- `normalizeLoopBound`
unfoldable pub normalize_loop_bound : Option ℕ → ℕ → M ℕ
normalize_loop_bound value fallback t =
    let resolved = or_else value fallback in
    if leb resolved 10 then (ok resolved, t) else (err bad_limit, t)

pub data Status : Type 0 where
  success failure intervention : Status

-- `outcomeStatus`
unfoldable pub outcome_status : Bool → Bool → Option Bool → Status
outcome_status review_passed tests_passed verification_passed =
    if not review_passed || not tests_passed
    then failure
    else elim verification_passed [ some false ↦ intervention | _ ↦ success ]

module _ (host : Host) where
  -- `builder.phase(phase).agent({ role })`
  unfoldable pub agent : String → String → M Value
  agent phase role t = let a = host.ask t phase role in (answer_of a, called phase role a ∷ t)

  -- `requireWorkflowApproval`
  unfoldable pub require_workflow_approval : String → M Decision
  require_workflow_approval gate_id t =
      let a = host.gate t gate_id in (decision_of gate_id a, asked gate_id a ∷ t)
