-- ===== src/Verification/Gate.antt =====
-- `VerificationService` of packages/verification/src/domain.ts: the runs in memory and the gate on
-- required profiles. The order of texts and the printing of numbers are arguments.
pub mod Latest
use Prim.Native.String.{◌++◌ as append}
use dark_kitchen_orchestrato.Prelude.{
  ℕ, ◌+◌, suc, String, Bool, true, false, ◌&&◌, Option, none, some, or_else, List, [], ◌∷◌, ◌==◌,
  filter, if◌then◌else◌, Result, ok, err,
}
use dark_kitchen_orchestrato.Prelude.Maps
use dark_kitchen_orchestrato.Verification.Runs.{
  VerificationRun, VerificationRunState, VerificationCriterionResult, passed, create_run, Order,
  is_not_after,
}

pub record VerificationService : Type 0 where
  pub runs : List (String × VerificationRun)
  pub run_seq : ℕ

-- The fields that `updateRun` may change.
pub record RunPatch : Type 0 where
  pub state : Option VerificationRunState
  pub criterion_results : Option (List VerificationCriterionResult)
  pub completed_at : Option String
  pub error_message : Option String

-- A field that the patch has replaces the old one.
abbrev or_old : Option String → Option String → Option String
or_old (some s) old = some s
or_old none old = old

abbrev pub patched : RunPatch → VerificationRun → VerificationRun
patched p r = record r {
  state = or_else p.state r.state;
  criterion_results = or_else p.criterion_results r.criterion_results;
  completed_at = or_old p.completed_at r.completed_at;
  error_message = or_old p.error_message r.error_message;
}

-- `padded` prints a number with ten digits; `stamp` is the time as a number and `now` as a text.
unfoldable pub start_run :
    (ℕ → String)
    → String
    → String
    → String
    → String
    → VerificationService
    → VerificationService × VerificationRun
start_run padded stamp now task_id profile_id s =
    let id = append "vrun-" (append (padded (suc s.run_seq)) (append "-" stamp)) in
    let run = create_run id now task_id profile_id 1 in
    (record { runs = Maps.put id run s.runs; run_seq = suc s.run_seq }, run)

-- `updateRun`; a missing run is an error.
unfoldable pub update_run :
    String → RunPatch → VerificationService → Result String (VerificationService × VerificationRun)
update_run run_id p s = elim (Maps.get run_id s.runs) [
  | none ↦ err (append "Verification run " (append run_id " not found"))
  | some r ↦ ok (record s { runs = Maps.put run_id (patched p r) s.runs }, patched p r)
]

-- `listRuns`
unfoldable pub list_runs : Option String → VerificationService → List VerificationRun
list_runs none s = Maps.values s.runs
list_runs (some task_id) s =
    if task_id == ""
    then Maps.values s.runs
    else filter (λ (r : VerificationRun). r.task_id == task_id) (Maps.values s.runs)

abbrev pub is_passed_run : Option VerificationRun → Bool
is_passed_run none = false
is_passed_run (some r) = elim r.state [ passed ↦ true | _ ↦ false ]

-- `sorted[0]`
abbrev pub first_run : List VerificationRun → Option VerificationRun
first_run [] = none
first_run (r ∷ rs) = some r

module _ (locale_compare : String → String → Order) where
  -- The stable sort with the latest run first.
  abbrev pub insert_latest : VerificationRun → List VerificationRun → List VerificationRun
  insert_latest r [] = r ∷ []
  insert_latest r (x ∷ xs) =
      let rest = insert_latest r xs in
      if is_not_after locale_compare x r then r ∷ x ∷ xs else x ∷ rest

  unfoldable pub sort_latest : List VerificationRun → List VerificationRun
  sort_latest [] = []
  sort_latest (r ∷ rs) = insert_latest r (sort_latest rs)

  -- The runs of one task and profile.
  abbrev pub runs_of : String → String → VerificationService → List VerificationRun
  runs_of task_id profile_id s =
      filter (λ (r : VerificationRun). r.profile_id == profile_id) (list_runs (some task_id) s)

  -- `isBlockingVerificationPassed`
  unfoldable pub is_blocking_verification_passed : String → List String → VerificationService → Bool
  unfolding sort_latest
  is_blocking_verification_passed task_id [] s = true
  is_blocking_verification_passed task_id (id ∷ ids) s =
      is_passed_run (first_run (sort_latest (runs_of task_id id s)))
      && is_blocking_verification_passed task_id ids s
