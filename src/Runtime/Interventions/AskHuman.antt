-- ===== src/Runtime/Interventions/AskHuman.antt =====
-- `askHuman` of packages/runtime/src/interventions.ts. Times are in milliseconds. What the store
-- answers at a time, how late a timer fires, the hash of a request and `extractAnswer` are
-- arguments.
pub mod Answered
use Prim.Native.String.{◌++◌ as append}
use dark_kitchen_orchestrato.Prelude.{
  ℕ, zero, suc, ◌+◌, ◌-◌, String, Bool, true, false, not, Option, none, some, or_else, Result, ok,
  err, ltb, leb, ◌==◌, if◌then◌else◌,
}
use dark_kitchen_orchestrato.Runtime.Intervention.{
  Intervention, InterventionStatus, resolved, dismissed, task, product_decision,
  CreateInterventionInput, InterventionError, trim, text_length, if_any,
}
use dark_kitchen_orchestrato.Runtime.Interventions.{Interventions, create}

pub record AskHumanOptions : Type 0 where
  pub timeout_ms : Option ℕ
  pub poll_interval_ms : Option ℕ
  pub request_id : Option String

pub record AskHumanResult : Type 0 where
  pub resolved : Bool
  pub answer : Option String
  pub intervention_id : String

pub data AskError : Type 0 where
  empty_question long_question bad_interval : AskError
  uncreated : InterventionError → AskError

-- `Math.min`
abbrev pub min : ℕ → ℕ → ℕ
min a b = if ltb b a then b else a

module _ (extract_answer : String → String) where
  -- What a settled record answers.
  abbrev pub answer_of : Bool → Intervention → AskHumanResult
  answer_of is_resolved i = record {
    resolved = is_resolved;
    answer = elim (if_any i.details) [ none ↦ none | some d ↦ some (extract_answer d) ];
    intervention_id = i.id;
  }

  abbrev pub no_answer : String → AskHumanResult
  no_answer id = record { resolved = false; answer = none; intervention_id = id }

  -- The result for a record that is settled.
  abbrev pub settled_answer : Intervention → InterventionStatus → Option AskHumanResult
  settled_answer i resolved = some (answer_of true i)
  settled_answer i dismissed = some (answer_of false i)
  settled_answer i _ = none

  module _ (record_at : ℕ → Option Intervention) (lateness : ℕ → ℕ) (id : String)
      (poll_interval deadline : ℕ) where
    -- The loop at time `t`, with the timers counted; `none` means that the fuel ran out.
    unfoldable pub poll : ℕ → ℕ → ℕ → Option AskHumanResult
    poll zero n t = none
    poll (suc fuel) n t = elim (record_at t) [
      | none ↦ some (no_answer id)
      | some i ↦ elim (settled_answer i i.status) [
        | some x ↦ some x
        | none ↦
            let rest = poll fuel (suc n) (t + min poll_interval (deadline - t) + lateness n) in
            if leb deadline t then some (no_answer id) else rest
      ]
    ]

abbrev pub trimmed : Option String → Option String
trimmed none = none
trimmed (some t) = some (trim t)

-- The request that a question becomes.
abbrev pub question_input : (String → String) → String → String → CreateInterventionInput
question_input stable_hash question request_id = record {
  scope = task;
  target_id = append "manual-ask-" (stable_hash request_id);
  kind = product_decision;
  summary = question;
  details = none;
  deduplication_key = some (append "ask-human:" request_id);
}

module _ (id_for_key redact stable_hash extract_answer : String → String)
    (record_at : Interventions → ℕ → String → Option Intervention) (lateness : ℕ → ℕ) where
  -- The loop on the record that was made. It has one unit of fuel more than there are milliseconds
  -- to the deadline.
  unfoldable pub await_answer :
      ℕ
      → ℕ
      → ℕ
      → Interventions × Result InterventionError Intervention
      → Interventions × Result AskError (Option AskHumanResult)
  unfolding poll
  await_answer timeout interval t (s, err e) = (s, err (uncreated e))
  await_answer timeout interval t (s, ok i) = (
    s,
    ok (
        poll extract_answer (λ u. record_at s u i.id) lateness i.id interval (t + timeout)
          (suc timeout) 0 t),
  )

  -- `askHuman` at time `t`; a request without an identifier of its own gets the one that is drawn.
  unfoldable pub ask_human :
      (question : String)
      → AskHumanOptions
      → (drawn drawn_id now : String) → ℕ
      → Interventions
      → Interventions × Result AskError (Option AskHumanResult)
  unfolding create await_answer
  ask_human question options drawn drawn_id now t s =
      let timeout = or_else options.timeout_ms 1800000 in
      let interval = or_else options.poll_interval_ms 1000 in
      let request = or_else (if_any (trimmed options.request_id)) drawn in
      if trim question == ""
      then (s, err empty_question)
      else if ltb 16000 (text_length (trim question))
      then (s, err long_question)
      else if ltb interval 1
      then (s, err bad_interval)
      else await_answer timeout interval t (
          create id_for_key redact (question_input stable_hash (trim question) request) drawn_id now
            s)
