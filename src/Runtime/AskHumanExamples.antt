-- ===== src/Runtime/AskHumanExamples.antt =====
-- A question of an agent, answered five milliseconds after it was asked.
use dark_kitchen_orchestrato.Prelude.{
  ℕ, String, ◌≡◌, refl, true, some, none, Option, [], ok, ltb, if◌then◌else◌, arith,
}
use dark_kitchen_orchestrato.Prelude.Maps
use dark_kitchen_orchestrato.Core.Ids.{is_blank, is_space}
use dark_kitchen_orchestrato.Runtime.Intervention.{
  InterventionScope, InterventionKind, InterventionScope-discrete, InterventionKind-discrete,
  InterventionStatus, Intervention, same_nature, text_length, trim_start, trim_end,
  validate_create_input,
}
use dark_kitchen_orchestrato.Runtime.Interventions.{Interventions, create_once, create}
use dark_kitchen_orchestrato.Runtime.Interventions.AskHuman.{AskHumanOptions, AskHumanResult}
use dark_kitchen_orchestrato.Runtime.Interventions.AskHuman.Answered.{
  asked, made, IsAllowed, SettlesAt, ask_human_answers,
}

abbrev hash : String → String
hash k = "h"

abbrev plain : String → String
plain t = t

abbrev empty : Interventions
empty = record { store = []; active_by_key = [] }

abbrev options : AskHumanOptions
options = record { timeout_ms = some 10; poll_interval_ms = some 2; request_id = some "r" }

abbrev question : Intervention
question = record {
  id = "h";
  scope = InterventionScope.task;
  target_id = "manual-ask-h";
  kind = InterventionKind.product_decision;
  status = InterventionStatus.opened;
  summary = "ship it?";
  details = none;
  created_at = "t";
  updated_at = "t";
  resolved_at = none;
}

abbrev reply : Intervention
reply = record question { status = InterventionStatus.resolved; details = some "yes" }

abbrev held : Interventions → ℕ → String → Option Intervention
held s u id = if ltb u 5 then some question else some reply

abbrev kept : Interventions
kept = (made hash plain hash plain held (λ n. 1) "ship it?" options "d" "i" "t" 0 empty).0

made-question :
    made hash plain hash plain held (λ n. 1) "ship it?" options "d" "i" "t" 0 empty
    ≡ (kept, ok question)
unfolding create create_once validate_create_input text_length trim_start trim_end is_blank is_space
    same_nature Maps.get Maps.put InterventionKind-discrete InterventionScope-discrete
made-question = refl

question-IsAllowed :
    IsAllowed hash plain hash plain held (λ n. 1) "ship it?" options "d" "i" "t" 0 empty
unfolding text_length trim_start trim_end is_blank is_space
question-IsAllowed = record { filled = refl; short = omega arith; paced = omega arith }

reply-SettlesAt :
    SettlesAt hash plain hash plain held
      (λ n. 1)
      "ship it?"
      options
      "d"
      "i"
      "t"
      0
      empty
      5
      reply
      question
      kept
reply-SettlesAt = record {
  open_until = λ u h. (question, ground arith, refl);
  settled_from = λ u h. ground arith;
  in_time = omega arith;
}

abbrev answer : AskHumanResult
answer = record { resolved = true; answer = some "yes"; intervention_id = "h" }

ask_human_answers_example :
    asked hash plain hash plain held (λ n. 1) "ship it?" options "d" "i" "t" 0 empty
    ≡ (kept, ok (some answer))
ask_human_answers_example =
    ask_human_answers hash plain hash plain held (λ n. 1) "ship it?" options "d" "i" "t" 0 empty 5
      reply question kept answer question-IsAllowed made-question reply-SettlesAt refl
