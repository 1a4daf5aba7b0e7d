-- ===== src/Runtime/PrLifecycleExamples.antt =====
-- Small runs of packages/runtime/src/pr-lifecycle.ts.
use dark_kitchen_orchestrato.Prelude.{◌≡◌, ◌≢◌, refl, true, false, none, some, ok, err, [], ◌∷◌}
use dark_kitchen_orchestrato.Runtime.PrLifecycle.{
  TextApi, Services, PrLifecycleOptions, PrLifecycleResult, WorkflowResult, VerificationProof,
  passed, PullRequest, open_pr, merged_pr, check_passed, base_error, Trace, merged,
}
use dark_kitchen_orchestrato.Prelude.Sets
use dark_kitchen_orchestrato.Runtime.PrLifecycle.Texts.{is_safe_evidence_ref}
use dark_kitchen_orchestrato.Runtime.PrLifecycle.Evidence.{validate_verification_proofs}
use dark_kitchen_orchestrato.Runtime.PrLifecycle.Checks.{validate, validate_branches}
use dark_kitchen_orchestrato.Runtime.PrLifecycle.Merging.{turn, merge_loop}
use dark_kitchen_orchestrato.Runtime.PrLifecycle.Closing.{
  run, pursue, advance, finish, release_with,
}
use dark_kitchen_orchestrato.Runtime.PrLifecycle.Safety.{IsSafe}
use dark_kitchen_orchestrato.Runtime.PrLifecycle.Order.{run-IsSafe}
use dark_kitchen_orchestrato.Runtime.PrLifecycle.Reports.{Reports, run-Reports}
use dark_kitchen_orchestrato.Runtime.PrLifecycle.Gates.{IsVouched, run-IsVouched}

abbrev plain_texts : TextApi
plain_texts = record {
  trim = λ s. s;
  trim_end = λ s. s;
  slice = λ n s. s;
  size = λ s. 10;
  redact_secrets = λ s. s;
  collapse_spaces = λ s. s;
  escape_comments = λ s. s;
  escape_marks = λ s. s;
  mentions_conflict = λ s. false;
}

abbrev options : PrLifecycleOptions
options = record {
  source_branch = "task";
  target_branch = "main";
  required_checks = some ("build" ∷ []);
  auto_merge = some true;
  required_verification_profiles = some ("e2e" ∷ []);
  delete_head_branch_after_merge = some true;
  worktree_path = none;
  external_fix_polls = none;
}

abbrev pr : PullRequest
pr = record { id = "7"; status = open_pr; head_sha = some "abc"; mergeability = none }

abbrev services : Services
services = record {
  find = λ t. ok none;
  create = λ t. ok pr;
  update = λ t. ok tt;
  get = λ t. ok pr;
  poll = λ t. ok (record { name = "build"; status = check_passed } ∷ []);
  merge_base_into_branch = λ t. base_error;
  merge_pr = λ t. ok (record pr { status = merged_pr });
  verify = λ t. ok true;
  close = λ t. ok tt;
  delete = λ t. err "no such branch";
  release = some (λ t. ok tt);
}

abbrev proof : VerificationProof
proof = record { profile_id = "e2e"; status = passed; summary = none; evidence_refs = "log" ∷ [] }

abbrev work : WorkflowResult
work = record {
  task_id = "1";
  summary = "done";
  repository_tests_passed = true;
  review_passed = true;
  commits = "c" ∷ [];
  verification_gate_summary = none;
  evidence_refs = none;
  evidence_attestations = [];
  verification_results = some (proof ∷ []);
  warnings = none;
  worktree_clean = none;
  no_code_outcome = none;
}

abbrev ended : PrLifecycleResult × Trace
ended = run plain_texts options services work

is_merged : ended.0 ≡ record {
  pull_request_id = some "7";
  is_merged = true;
  tracker_closed = true;
  worktree_released = true;
  state = merged;
  error_message = none;
}
unfolding run validate validate_verification_proofs is_safe_evidence_ref Sets.of_list pursue
    validate_branches advance finish merge_loop turn release_with
is_merged = refl

run-IsSafe_example : IsSafe options work ended.1
run-IsSafe_example = run-IsSafe plain_texts options services work

run-Reports_example : Reports ended
run-Reports_example = run-Reports plain_texts options services work

called : ended.1 ≢ []
unfolding run validate validate_verification_proofs is_safe_evidence_ref Sets.of_list pursue
    validate_branches advance finish merge_loop turn release_with
called = λ e. absurd (cc)

run-IsVouched_example : IsVouched options work
run-IsVouched_example = run-IsVouched plain_texts options services work called
