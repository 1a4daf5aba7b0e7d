-- ===== src/Verification/Runs.antt =====
-- The runs of packages/verification/src/domain.ts, and the order in which
-- packages/verification/src/durable-service.ts lists them.
use dark_kitchen_orchestrato.Prelude.{
  ℕ, String, Bool, true, false, Option, none, some, List, [], ◌∷◌, if◌then◌else◌,
}

pub data VerificationRunState : Type 0 where
  pending running passed failed blocked cancelled : VerificationRunState

pub data EvidenceKind : Type 0 where
  screenshot trace log console_output network_log command_output http_response recording artifact :
      EvidenceKind

pub record VerificationEvidence : Type 0 where
  pub id : String
  pub kind : EvidenceKind
  pub name : String
  pub artifact_ref : String
  pub captured_at : String
  pub sha256 : Option String

pub data CriterionStatus : Type 0 where
  pass fail blocked skipped : CriterionStatus

pub record VerificationCriterionResult : Type 0 where
  pub criterion_name : String
  pub status : CriterionStatus
  pub message : Option String
  pub evidence : List VerificationEvidence

pub record VerificationRun : Type 0 where
  pub id : String
  pub task_id : String
  pub profile_id : String
  pub state : VerificationRunState
  pub criterion_results : List VerificationCriterionResult
  pub started_at : String
  pub completed_at : Option String
  pub attempt : ℕ
  pub error_message : Option String

-- `createRun`, with the identifier and the time that it draws.
abbrev pub create_run : String → String → String → String → ℕ → VerificationRun
create_run id now task_id profile_id attempt = record {
  id = id;
  task_id = task_id;
  profile_id = profile_id;
  state = pending;
  criterion_results = [];
  started_at = now;
  completed_at = none;
  attempt = attempt;
  error_message = none;
}

-- `isTerminal`
abbrev pub is_terminal : VerificationRunState → Bool
is_terminal passed = true
is_terminal failed = true
is_terminal VerificationRunState.blocked = true
is_terminal cancelled = true
is_terminal _ = false

abbrev pub is_pass : CriterionStatus → Bool
is_pass pass = true
is_pass _ = false

-- What `localeCompare` finds of two texts: the first comes before, at, or after the second.
pub data Order : Type 0 where
  before same after : Order

module _ (locale_compare : String → String → Order) where
  -- `compareRuns`
  abbrev pub compare_runs : VerificationRun → VerificationRun → Order
  compare_runs left right = elim (locale_compare left.started_at right.started_at) [
    | same ↦ locale_compare left.id right.id
    | before ↦ before
    | after ↦ after
  ]

  abbrev pub is_not_after : VerificationRun → VerificationRun → Bool
  is_not_after left right = elim (compare_runs left right) [
    | before ↦ true
    | same ↦ true
    | after ↦ false
  ]

  -- `runs.sort(compareRuns)`, which is stable.
  abbrev pub insert_run : VerificationRun → List VerificationRun → List VerificationRun
  insert_run r [] = r ∷ []
  insert_run r (x ∷ xs) =
      let rest = insert_run r xs in if is_not_after r x then r ∷ x ∷ xs else x ∷ rest

  unfoldable pub sort_runs : List VerificationRun → List VerificationRun
  sort_runs [] = []
  sort_runs (r ∷ rs) = insert_run r (sort_runs rs)

-- `runs.at(-1)`
abbrev pub last_of : List VerificationRun → Option VerificationRun
last_of [] = none
last_of (r ∷ []) = some r
last_of (r ∷ x ∷ xs) = last_of (x ∷ xs)
