-- ===== src/Runtime/InterventionExamples.antt =====
-- Interventions about one agent.
use dark_kitchen_orchestrato.Prelude.{
  String, ◌≡◌, refl, Option, none, some, List, [], ◌∷◌, arith, ne_of_test,
}
use dark_kitchen_orchestrato.Prelude.Maps
use dark_kitchen_orchestrato.Core.Ids.{is_blank, is_space}
use dark_kitchen_orchestrato.Runtime.Intervention.{
  InterventionScope, InterventionKind, InterventionScope-discrete, InterventionKind-discrete,
  InterventionStatus, Intervention, CreateInterventionInput, ResolutionAction, same_nature,
  text_length, trim_start, trim_end, validate_create_input, validate_resolve_input,
}
use dark_kitchen_orchestrato.Runtime.Interventions.{
  Interventions, Request, creation, resolution, dismissal, create_once, create, resolve, handle,
  handle_all,
}
use dark_kitchen_orchestrato.Runtime.Interventions.Single.{IsSingle, handle_all-IsSingle}
use dark_kitchen_orchestrato.Runtime.Interventions.Settled.{settled_kept}

abbrev hash : String → String
hash k = "int-dedup-quota"

abbrev plain : String → String
plain t = t

abbrev quota : Option String → String → CreateInterventionInput
quota key summary = record {
  scope = InterventionScope.agent;
  target_id = "agent-1";
  kind = InterventionKind.quota;
  summary = summary;
  details = none;
  deduplication_key = key;
}

abbrev empty : Interventions
empty = record { store = []; active_by_key = [] }

-- Two reports of one incident, an answer, and a replay of the first report.
abbrev incident : List Request
incident =
    creation (quota (some "quota") "out of tokens") "i1" "t1"
    ∷ creation (quota none "no tokens left") "i2" "t2"
    ∷ resolution
        (record {
          intervention_id = "int-dedup-quota";
          action = ResolutionAction.retry;
          answer = some "topped up";
          resolved_by = none;
        })
        "t3"
    ∷ creation (quota (some "quota") "out of tokens") "i3" "t4"
    ∷ []

handle_all-IsSingle_example : IsSingle (handle_all hash plain incident empty)
handle_all-IsSingle_example = handle_all-IsSingle hash plain incident empty (λ k c t. omega arith)

abbrev answered : Intervention
answered = record {
  id = "int-dedup-quota";
  scope = InterventionScope.agent;
  target_id = "agent-1";
  kind = InterventionKind.quota;
  status = InterventionStatus.resolved;
  summary = "out of tokens";
  details = some "Resolution (retry): topped up";
  created_at = "t1";
  updated_at = "t3";
  resolved_at = some "t3";
}

abbrev after_answer : Interventions
after_answer = record { store = ("int-dedup-quota", answered) ∷ []; active_by_key = [] }

incident_settled : handle_all hash plain incident empty ≡ after_answer
unfolding handle_all handle create_once create resolve validate_create_input validate_resolve_input
    same_nature text_length trim_start trim_end is_blank is_space Maps.get Maps.put
    InterventionKind-discrete InterventionScope-discrete
incident_settled = refl

there : Maps.get "int-dedup-quota" after_answer.store ≡ some answered
unfolding Maps.get
there = refl

settled_kept_example :
    Maps.get "int-dedup-quota" (handle_all hash plain incident after_answer).store ≡ some answered
settled_kept_example =
    settled_kept hash plain incident "int-dedup-quota" answered after_answer refl there tt
      (ne_of_test refl, (ne_of_test refl, (tt, (ne_of_test refl, tt))))

-- A report that joins an active record leaves no trace of its key: once that record is settled, a
-- replay of the report makes a new record.
abbrev joined : List Request
joined =
    creation (quota none "no tokens left") "i1" "t1"
    ∷ creation (quota (some "quota") "out of tokens") "i2" "t2"
    ∷ dismissal "i1" none "t3"
    ∷ []

replayed :
    (create hash plain
      (quota (some "quota") "out of tokens")
      "i4"
      "t4"
      (handle_all hash plain joined empty)).0.active_by_key
    ≡ ("quota", "int-dedup-quota") ∷ []
unfolding handle_all handle create_once create resolve validate_create_input validate_resolve_input
    same_nature text_length trim_start trim_end is_blank is_space Maps.get Maps.put
    InterventionKind-discrete InterventionScope-discrete
replayed = refl
