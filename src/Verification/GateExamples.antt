-- ===== src/Verification/GateExamples.antt =====
-- Small runs of the gate of packages/verification/src/domain.ts.
use dark_kitchen_orchestrato.Prelude.{
  ℕ, String, ◌≡◌, refl, true, false, [], ◌∷◌, ◌==◌, if◌then◌else◌, All, arith, ltb,
}
use dark_kitchen_orchestrato.Verification.Runs.{
  failed, passed, Order, before, same, after, create_run,
}
use dark_kitchen_orchestrato.Verification.Gate.{
  VerificationService, list_runs, is_blocking_verification_passed,
}
use dark_kitchen_orchestrato.Verification.Gate.Latest.{
  IsOrder, opposite, le, IsPassed, Lacks, Any, is_blocking_verification_passed_lem,
}

-- An order of the texts of this file.
abbrev rank : String → ℕ
rank s = if s == "t2" then 2 else if s == "t1" then 1 else 0

abbrev by_numbers : ℕ → ℕ → Order
by_numbers m n = if ltb m n then before else if ltb n m then after else same

by_numbers_flips : (m n : ℕ) → by_numbers n m ≡ opposite (by_numbers m n)
by_numbers_flips m n = ground arith

by_numbers_trans :
    (l m n : ℕ)
    → le (by_numbers l m) ≡ true
    → le (by_numbers m n) ≡ true
    → le (by_numbers l n) ≡ true
by_numbers_trans l m n h k = ground arith

abbrev by_rank : String → String → Order
by_rank a b = by_numbers (rank a) (rank b)

by_rank-IsOrder : IsOrder by_rank
by_rank-IsOrder = record {
  flips = λ a b. by_numbers_flips (rank a) (rank b);
  trans = λ a b c. by_numbers_trans (rank a) (rank b) (rank c);
}

-- A run that failed, and a later one that passed.
abbrev service : VerificationService
service = record {
  runs =
      ("v1", record (create_run "v1" "t1" "task" "e2e" 1) { state = failed })
      ∷ ("v2", record (create_run "v2" "t2" "task" "e2e" 1) { state = passed })
      ∷ [];
  run_seq = 2;
}

opens : is_blocking_verification_passed by_rank "task" ("e2e" ∷ []) service ≡ true
unfolding is_blocking_verification_passed list_runs
opens = refl

stays_shut : is_blocking_verification_passed by_rank "task" ("e2e" ∷ "api" ∷ []) service ≡ false
unfolding is_blocking_verification_passed list_runs
stays_shut = refl

is_blocking_verification_passed_lem_example :
    (is_blocking_verification_passed by_rank "task" ("e2e" ∷ []) service ≡ true
      → All (IsPassed by_rank by_rank-IsOrder "task" service) ("e2e" ∷ []))
    × (is_blocking_verification_passed by_rank "task" ("e2e" ∷ []) service ≡ false
        → Any (Lacks by_rank by_rank-IsOrder "task" service) ("e2e" ∷ []))
is_blocking_verification_passed_lem_example =
    is_blocking_verification_passed_lem by_rank by_rank-IsOrder "task" service ("e2e" ∷ [])
