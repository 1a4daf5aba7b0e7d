-- ===== src/Runtime/PrLifecycle.antt =====
-- The data of packages/runtime/src/pr-lifecycle.ts: what a workflow hands over, the options, the
-- services that are called with their answers, and the result. Regular expressions and the
-- white space of a text are arguments.
pub mod Texts
pub mod Evidence
pub mod Checks
pub mod Merging
pub mod Closing
pub mod Safety
pub mod Order
pub mod Growth
pub mod Rounds
pub mod Reports
pub mod Gates
use dark_kitchen_orchestrato.Prelude.{ℕ, String, Bool, Option, List, Result}

pub data ProofStatus : Type 0 where
  passed failed blocked : ProofStatus

pub record VerificationProof : Type 0 where
  pub profile_id : String
  pub status : ProofStatus
  pub summary : Option String
  pub evidence_refs : List String

pub record WorkflowResult : Type 0 where
  pub task_id : String
  pub summary : String
  pub repository_tests_passed : Bool
  pub review_passed : Bool
  pub commits : List String
  pub verification_gate_summary : Option String
  pub evidence_refs : Option (List String)
  pub evidence_attestations : List (String × String)
  pub verification_results : Option (List VerificationProof)
  pub warnings : Option (List String)
  pub worktree_clean : Option Bool
  pub no_code_outcome : Option Bool

-- The options that the lifecycle reads itself; the others go to a service as they are.
pub record PrLifecycleOptions : Type 0 where
  pub source_branch : String
  pub target_branch : String
  pub required_checks : Option (List String)
  pub auto_merge : Option Bool
  pub required_verification_profiles : Option (List String)
  pub delete_head_branch_after_merge : Option Bool
  pub worktree_path : Option String
  pub external_fix_polls : Option ℕ

pub data LifecycleState : Type 0 where
  pr_created checks_failed pr_failed merge_refused merge_conflict merged tracker_close_failed :
      LifecycleState
  verification_failed workflow_invalid merge_verification_failed : LifecycleState
  worktree_release_failed awaiting_approval no_code : LifecycleState

pub record PrLifecycleResult : Type 0 where
  pub pull_request_id : Option String
  pub is_merged : Bool
  pub tracker_closed : Bool
  pub worktree_released : Bool
  pub state : LifecycleState
  pub error_message : Option String

pub data PullRequestStatus : Type 0 where
  open_pr merged_pr closed_pr : PullRequestStatus

pub data Mergeability : Type 0 where
  mergeable conflicting unknown : Mergeability

pub record PullRequest : Type 0 where
  pub id : String
  pub status : PullRequestStatus
  pub head_sha : Option String
  pub mergeability : Option Mergeability

pub data CheckStatus : Type 0 where
  check_queued check_running check_passed check_failed check_cancelled : CheckStatus

pub record Check : Type 0 where
  pub name : String
  pub status : CheckStatus

-- `BaseMergeOutcome` of workflow-executor.ts.
pub data BaseMergeOutcome : Type 0 where
  base_merged base_conflict base_error : BaseMergeOutcome

-- What a call answers, or the message of the error that it throws.
abbrev pub Answer : Type 0 → Type 0
Answer A = Result String A

-- A call of a service with its answer.
pub data Event : Type 0 where
  find_pull_request : Answer (Option PullRequest) → Event
  create_pull_request : String → String → Answer PullRequest → Event
  update_body : String → String → Answer (Unit {0}) → Event
  get_pull_request : Answer PullRequest → Event
  poll_checks : Answer (List Check) → Event
  merge_base : BaseMergeOutcome → Event
  merge : String → Answer PullRequest → Event
  verify_merged : String → Answer Bool → Event
  close_task : Answer (Unit {0}) → Event
  delete_branch : Answer (Unit {0}) → Event
  release_worktree : Answer (Unit {0}) → Event

-- The calls so far, the last one first.
abbrev pub Trace : Type 0
Trace = List Event

-- The source control, the tracker and the worktrees: what each call answers after the calls so far.
pub record Services : Type 0 where
  pub find : Trace → Answer (Option PullRequest)
  pub create : Trace → Answer PullRequest
  pub update : Trace → Answer (Unit {0})
  pub get : Trace → Answer PullRequest
  pub poll : Trace → Answer (List Check)
  pub merge_base_into_branch : Trace → BaseMergeOutcome
  pub merge_pr : Trace → Answer PullRequest
  pub verify : Trace → Answer Bool
  pub close : Trace → Answer (Unit {0})
  pub delete : Trace → Answer (Unit {0})
  pub release : Option (Trace → Answer (Unit {0}))

-- Methods of a text, and its rewriting by regular expressions; `size` is `length`.
pub record TextApi : Type 0 where
  pub trim : String → String
  pub trim_end : String → String
  pub slice : ℕ → String → String
  pub size : String → ℕ
  pub redact_secrets : String → String
  pub collapse_spaces : String → String
  pub escape_comments : String → String
  pub escape_marks : String → String
  pub mentions_conflict : String → Bool
