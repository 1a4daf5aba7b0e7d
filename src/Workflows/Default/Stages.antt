-- ===== src/Workflows/Default/Stages.antt =====
-- `runReviewLoop`, `runVerificationLoop` and `runRepositoryValidation` of
-- packages/workflows/src/default.ts.
use Prim.Native.String.{◌++◌ as append}
use dark_kitchen_orchestrato.Prelude.{
  ℕ, suc, zero, String, Bool, Option, or_else, leb, if◌then◌else◌,
}
use dark_kitchen_orchestrato.Workflows.Verdicts.{
  JsonApi, Verdict, parse_review_result, parse_verification_result,
}
use dark_kitchen_orchestrato.Workflows.Default.{Host, M, ◌>>=◌, pure, throw, bad_delay, agent}

-- The names of a review loop.
pub record ReviewNames : Type 0 where
  pub reviewer_role : String
  pub review_phase : String
  pub fix_phase : String

abbrev pub plain_review : ReviewNames
plain_review = record { reviewer_role = "reviewer"; review_phase = "review"; fix_phase = "fix" }

abbrev pub security_review : ReviewNames
security_review = record {
  reviewer_role = "security-reviewer";
  review_phase = "security-review";
  fix_phase = "security-fix";
}

module _ (host : Host) (json : JsonApi) where
  -- `${phase}-${cycle}`
  abbrev pub phase_of : String → ℕ → String
  phase_of phase cycle = append phase (append "-" (host.number cycle))

  abbrev pub review_once : ReviewNames → ℕ → M Verdict
  review_once names cycle = do
    r ← agent host (phase_of names.review_phase cycle) names.reviewer_role
    pure (parse_review_result json r)

  -- `runReviewLoop`, with the fixes that are left and the number of the cycle.
  unfoldable pub run_review_loop : ReviewNames → ℕ → ℕ → M Verdict
  run_review_loop names zero cycle = review_once names cycle
  run_review_loop names (suc left) cycle =
      let again = agent host (phase_of names.fix_phase cycle) "fixer" >>= λ ignored.
      run_review_loop names left (suc cycle) in
      review_once names cycle >>= λ latest. if latest.passed then pure latest else again

  abbrev pub verify_once : ℕ → M Verdict
  verify_once cycle = do
    r ← agent host (phase_of "verification" cycle) "verifier"
    pure (parse_verification_result json r)

  unfoldable pub verification_cycles : ℕ → ℕ → M Verdict
  verification_cycles zero cycle = verify_once cycle
  verification_cycles (suc left) cycle =
      let again = agent host (phase_of "verification-fix" cycle) "fixer" >>= λ ignored.
      verification_cycles left (suc cycle) in
      verify_once cycle >>= λ latest. if latest.passed then pure latest else again

  -- `runVerificationLoop`, with its delay between the cycles.
  unfoldable pub run_verification_loop : ℕ → Option ℕ → M Verdict
  unfolding verification_cycles
  run_verification_loop max_fix_cycles retry_delay_ms =
      if leb (or_else retry_delay_ms 0) 3600000
      then verification_cycles max_fix_cycles 0
      else throw bad_delay

  -- `runRepositoryValidation`
  unfoldable pub run_repository_validation : M Bool
  run_repository_validation = do
    r ← agent host "repository-validation" "repository-tester"
    pure ((parse_review_result json r).passed)
