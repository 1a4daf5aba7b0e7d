-- ===== src/Workflows/DefaultExamples.antt =====
-- Small runs of packages/workflows/src/default.ts.
use dark_kitchen_orchestrato.Prelude.{
  ℕ, ◌≤◌, String, ◌≡◌, refl, true, Option, none, some, Result, ok, List, [], ◌∷◌, ◌++◌, length,
  nat_eq, if◌then◌else◌,
}
use dark_kitchen_orchestrato.Prelude.Maps
use dark_kitchen_orchestrato.Workflows.Verdicts.{
  JsonApi, Value, object, text, the_true, Property, extract_json_object, parse_review_result,
  parse_verification_result,
}
use dark_kitchen_orchestrato.Workflows.Verdicts.Printing.{
  boolean, str, obj, spaced, plain, escaped, Fields, field, end, print,
}
use dark_kitchen_orchestrato.Workflows.Verdicts.Objects.{extract_json_object-print}
use dark_kitchen_orchestrato.Prelude.Stateful.{◌>>=◌, pure}
use dark_kitchen_orchestrato.Workflows.Default.{
  Host, Trace, Failure, approved, pending, normalize_loop_bound, agent, outcome_status, success,
}
use dark_kitchen_orchestrato.Workflows.Default.Stages.{
  run_review_loop, run_repository_validation, run_verification_loop,
}
use dark_kitchen_orchestrato.Workflows.Default.Flows.{
  WorkflowOptions, DefaultWorkflowResult, design_frontend_workflow, high_risk_workflow,
}
use dark_kitchen_orchestrato.Workflows.Default.Approval.{IsGuarded, high_risk_workflow-IsGuarded}
use dark_kitchen_orchestrato.Workflows.Default.Success.{Tested, Checked, design_success_lem}
use dark_kitchen_orchestrato.Workflows.Default.Bounds.{length-design_frontend_workflow}

abbrev passing : List (String × Property)
passing = ("passed", the_true) ∷ []

-- A text that starts with a brace counts as an object here.
abbrev parse_text : List ℕ → Option Value
parse_text [] = none
parse_text (c ∷ cs) = if nat_eq c b'{' then some (object passing) else none

abbrev json : JsonApi
json = record { parse = parse_text; trim = λ t. t; fenced = λ t. none }

-- `{"passed":true}`, with a brace in another string.
abbrev verdict : Fields
verdict = field [] (plain b'p' ∷ plain b'a' ∷ []) [] (spaced (32 ∷ []) (boolean true) []) (
    field (32 ∷ []) (plain b'"' ∷ plain b'}' ∷ []) (32 ∷ [])
      (str (plain b'{' ∷ escaped b'n' ∷ plain 92 ∷ [])) (end (10 ∷ [])))

abbrev prose : List ℕ
prose = b'o' ∷ b'k' ∷ b' ' ∷ []

abbrev answer : List ℕ
answer = prose ++ (print (obj verdict) ++ b'}' ∷ b'!' ∷ [])

extract_json_object-print_example : extract_json_object json (text answer) ≡ some passing
unfolding print
extract_json_object-print_example =
    extract_json_object-print json answer prose (b'}' ∷ b'!' ∷ []) verdict refl refl refl refl refl

-- Agents that pass whatever they are asked, and a gate that approves.
abbrev host : Host
host = record {
  ask = λ t phase role. ok (object passing);
  gate = λ t id. ok (approved none none);
  text_of = λ v. "done";
  number = λ n. "0";
}

abbrev waiting_host : Host
waiting_host = record host { gate = λ t id. ok (pending (some "i1")) }

abbrev options : WorkflowOptions
options = record {
  task_id = some "t";
  verification_profile_id = some "web";
  max_fix_cycles = none;
  max_verification_fix_cycles = some 3;
  verification_retry_delay_ms = none;
}

abbrev design : Result Failure DefaultWorkflowResult × Trace
design = design_frontend_workflow host json options []

abbrev designed : DefaultWorkflowResult
designed = record {
  task_id = "t";
  status = success;
  summary = "done";
  repository_tests_passed = true;
  review_passed = true;
  review_findings = none;
  verification_passed = some true;
  verification_summary = none;
  evidence_refs = none;
  was_approved = none;
  intervention = none;
}

succeeds : design.0 ≡ ok designed
unfolding ◌>>=◌ pure design_frontend_workflow normalize_loop_bound agent run_review_loop
    run_verification_loop run_repository_validation outcome_status parse_review_result
    parse_verification_result Maps.get
succeeds = refl

design_success_lem_example : Tested json (Checked host json options) design.1
design_success_lem_example = design_success_lem host json options designed succeeds refl

length-design_frontend_workflow_example : length design.1 ≤ 45
length-design_frontend_workflow_example = length-design_frontend_workflow host json options

high_risk_workflow-IsGuarded_example :
    IsGuarded (high_risk_workflow waiting_host json options none []).1
high_risk_workflow-IsGuarded_example = high_risk_workflow-IsGuarded waiting_host json options none
