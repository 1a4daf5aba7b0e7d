-- ===== src/Workflows/Examples.antt =====
-- A configuration with a default workflow and two for bugs.
use dark_kitchen_orchestrato.Prelude.{String, ◌≡◌, ◌≢◌, refl, true, none, some, List, [], ◌∷◌, find}
use dark_kitchen_orchestrato.Prelude.Sets
use dark_kitchen_orchestrato.Workflows.Selection.{
  negsuc, WorkflowSelectionTask, WorkflowTaskSelector, WorkflowConfig, matches_task_selector,
  applies, select_workflow_for_task,
}
use dark_kitchen_orchestrato.Workflows.Selection.Best.{IsBest, select-IsBest}

abbrev plain : String → String
plain t = t

abbrev for_label : String → WorkflowTaskSelector
for_label l = record {
  task_ids = none;
  statuses = none;
  labels_any = some (l ∷ []);
  labels_all = none;
  title_includes = none;
  description_includes = none;
  verification_profiles_any = none;
}

abbrev house : List WorkflowConfig
house =
    record {
      id = "triage";
      is_default = none;
      priority = some (negsuc 0);
      task_selector = some (for_label "bug");
    }
    ∷ record {
      id = "fix";
      is_default = none;
      priority = none;
      task_selector = some (for_label "bug");
    }
    ∷ record { id = "main"; is_default = some true; priority = none; task_selector = none }
    ∷ []

abbrev labelled : List String → WorkflowSelectionTask
labelled ls = record {
  id = "t";
  title = "crash";
  description = none;
  status = none;
  labels = some ls;
  verification_profile_ids = none;
}

bug_applies : find (applies plain (labelled ("bug" ∷ []))) house ≢ none
unfolding matches_task_selector Sets.of_list
bug_applies e = cc

no_match : find (applies plain (labelled [])) house ≡ none
unfolding matches_task_selector Sets.of_list
no_match = refl

select-IsBest_example :
    (w : WorkflowConfig) × (select_workflow_for_task plain house (labelled ("bug" ∷ [])) ≡ some w)
    × IsBest (applies plain (labelled ("bug" ∷ []))) house w
select-IsBest_example = select-IsBest plain house (labelled ("bug" ∷ [])) bug_applies
