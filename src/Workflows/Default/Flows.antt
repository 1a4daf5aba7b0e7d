-- ===== src/Workflows/Default/Flows.antt =====
-- The workflows of packages/workflows/src/default.ts.
use Prim.Native.String.{◌++◌ as append}
use dark_kitchen_orchestrato.Prelude.{
  ℕ, String, Bool, true, false, not, ◌&&◌, Option, none, some, or_else, List, ◌==◌, if◌then◌else◌,
}
use dark_kitchen_orchestrato.Workflows.Verdicts.{JsonApi, Verdict, parse_review_result}
use dark_kitchen_orchestrato.Workflows.Default.{
  Host, M, ◌>>=◌, pure, normalize_loop_bound, Status, success, failure, intervention,
  outcome_status, agent, Decision, granted, refused, require_workflow_approval,
}
use dark_kitchen_orchestrato.Workflows.Default.Stages.{
  plain_review, security_review, run_review_loop, run_verification_loop, run_repository_validation,
}

pub record Intervention : Type 0 where
  pub summary : String
  pub details : String

pub record DefaultWorkflowResult : Type 0 where
  pub task_id : String
  pub status : Status
  pub summary : String
  pub repository_tests_passed : Bool
  pub review_passed : Bool
  pub review_findings : Option String
  pub verification_passed : Option Bool
  pub verification_summary : Option String
  pub evidence_refs : Option (List String)
  pub was_approved : Option Bool
  pub intervention : Option Intervention

pub record WorkflowOptions : Type 0 where
  pub task_id : Option String
  pub verification_profile_id : Option String
  pub max_fix_cycles : Option ℕ
  pub max_verification_fix_cycles : Option ℕ
  pub verification_retry_delay_ms : Option ℕ

-- `s ? s : undefined`
abbrev set_text : Option String → Option String
set_text none = none
set_text (some s) = if s == "" then none else some s

abbrev pub is_set : Option String → Bool
is_set none = false
is_set (some s) = not (s == "")

abbrev pub bare_result :
    String → Status → String → Bool → Bool → Option String → DefaultWorkflowResult
bare_result task_id status summary tests_passed review_passed findings = record {
  task_id = task_id;
  status = status;
  summary = summary;
  repository_tests_passed = tests_passed;
  review_passed = review_passed;
  review_findings = findings;
  verification_passed = none;
  verification_summary = none;
  evidence_refs = none;
  was_approved = none;
  intervention = none;
}

-- What the verification adds to a result; a failed one asks for an intervention.
abbrev pub with_verification :
    String → String → Verdict → DefaultWorkflowResult → DefaultWorkflowResult
with_verification summary exhausted v r = record r {
  verification_passed = some v.passed;
  verification_summary = set_text v.words;
  evidence_refs = v.evidence_refs;
  intervention =
      if v.passed
      then none
      else some (record { summary = summary; details = or_else v.words exhausted });
}

abbrev pub with_optional :
    String → String → Option Verdict → DefaultWorkflowResult → DefaultWorkflowResult
with_optional summary exhausted none r = r
with_optional summary exhausted (some v) r = with_verification summary exhausted v r

abbrev pub passed_of : Option Verdict → Option Bool
passed_of none = none
passed_of (some v) = some v.passed

-- `a ?? b` and the two joined by a line break.
abbrev joined : Option String → Option String → Option String
joined none b = b
joined (some a) none = some a
joined (some a) (some b) = some (append a (append "\n" b))

module _ (host : Host) (json : JsonApi) where
  -- `defaultWorkflow`
  unfoldable pub default_workflow : M DefaultWorkflowResult
  default_workflow = do
    impl ← agent host "implementation" "implementer"
    review ← run_review_loop host json plain_review 2 0
    tests_passed ← run_repository_validation host json
    pure (
        bare_result "unknown" (if review.passed && tests_passed then success else failure)
          (host.text_of impl) tests_passed review.passed (set_text review.words))

  -- `createWorkflowWithVerification`
  unfoldable pub workflow_with_verification : Option ℕ → Option ℕ → M DefaultWorkflowResult
  workflow_with_verification max_cycles delay = do
    cycles ← normalize_loop_bound max_cycles 2
    impl ← agent host "base" "implementer"
    review ← run_review_loop host json plain_review 2 0
    verified ← run_verification_loop host json cycles delay
    tests_passed ← run_repository_validation host json
    pure (
        with_verification "Independent verification did not pass."
          "The verifier exhausted its bounded retry budget." verified
          (bare_result "unknown"
            (if review.passed && tests_passed
              then if verified.passed then success else intervention
              else failure)
            (host.text_of impl) tests_passed review.passed none))

  -- The verification of a workflow that may have a profile.
  abbrev pub verify_if : Bool → ℕ → Option ℕ → M (Option Verdict)
  verify_if true cycles delay = run_verification_loop host json cycles delay >>= λ v. pure (some v)
  verify_if false cycles delay = pure none

  -- `createDesignFrontendWorkflow`
  unfoldable pub design_frontend_workflow : WorkflowOptions → M DefaultWorkflowResult
  design_frontend_workflow options = do
    fixes ← normalize_loop_bound options.max_fix_cycles 2
    cycles ← normalize_loop_bound options.max_verification_fix_cycles 2
    design ← agent host "design" "designer"
    impl ← agent host "implementation" "implementer"
    review ← run_review_loop host json plain_review fixes 0
    verified ←
        verify_if (is_set options.verification_profile_id && review.passed) cycles
          options.verification_retry_delay_ms
    tests_passed ← run_repository_validation host json
    pure (
        with_optional
          (append "Verification profile "
            (append (or_else options.verification_profile_id "requested") " failed."))
          "The bounded fix and reverify loop was exhausted." verified
          (bare_result (or_else options.task_id "unknown")
            (outcome_status review.passed tests_passed (passed_of verified)) (host.text_of impl)
            tests_passed review.passed (set_text review.words)))

  -- The independent review follows a security review that passed.
  abbrev pub review_after : Verdict → ℕ → M Verdict
  review_after security fixes =
      if security.passed
      then run_review_loop host json plain_review fixes 0
      else pure (record {
        passed = false;
        words = some "Security review did not pass.";
        evidence_refs = none;
      })

  abbrev pub gate_of : WorkflowOptions → Option String → String
  gate_of options gate_id =
      or_else gate_id
        (append (or_else options.task_id "unknown") ":high-risk:pre-implementation-approval")

  -- What follows the approval.
  unfoldable pub approved_work : WorkflowOptions → ℕ → ℕ → M DefaultWorkflowResult
  approved_work options fixes cycles = do
    impl ← agent host "implementation" "implementer"
    security ← run_review_loop host json security_review fixes 0
    independent ← review_after security fixes
    verified ←
        verify_if
          (is_set options.verification_profile_id && (security.passed && independent.passed)) cycles
          options.verification_retry_delay_ms
    tests_passed ← run_repository_validation host json
    pure (
        with_optional
          (append "Verification profile "
            (append (or_else options.verification_profile_id "") " failed."))
          "The bounded verification retry budget was exhausted." verified
          (record (bare_result (or_else options.task_id "unknown")
            (outcome_status (security.passed && independent.passed) tests_passed
              (passed_of verified))
            (host.text_of impl) tests_passed (security.passed && independent.passed)
            (joined (set_text security.words) (set_text independent.words))) {
              was_approved = some true;
            }))

  abbrev pub decided : WorkflowOptions → ℕ → ℕ → Decision → M DefaultWorkflowResult
  decided options fixes cycles (refused reason) =
      pure
        (record (bare_result (or_else options.task_id "unknown") failure
          (or_else reason "The high-risk implementation was rejected.") false false none) {
            was_approved = some false;
          })
  decided options fixes cycles (granted id by) = approved_work options fixes cycles

  -- `createHighRiskWorkflow`
  unfoldable pub high_risk_workflow : WorkflowOptions → Option String → M DefaultWorkflowResult
  high_risk_workflow options gate_id = do
    fixes ← normalize_loop_bound options.max_fix_cycles 2
    cycles ← normalize_loop_bound options.max_verification_fix_cycles 2
    architecture ← agent host "architecture" "architect"
    decision ← require_workflow_approval host (gate_of options gate_id)
    decided options fixes cycles decision

  -- `securityReviewWorkflow`
  unfoldable pub security_review_workflow : M DefaultWorkflowResult
  security_review_workflow = do
    architecture ← agent host "architecture" "architect"
    impl ← agent host "parallel/branch:0" "implementer"
    reviewed ← agent host "security-review" "security-reviewer"
    tests_passed ← run_repository_validation host json
    let review = parse_review_result json reviewed
    pure (
        bare_result "unknown" (if review.passed && tests_passed then success else failure)
          (host.text_of impl) tests_passed review.passed (set_text review.words))
