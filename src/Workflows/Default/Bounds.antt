-- ===== src/Workflows/Default/Bounds.antt =====
-- How many agents the design workflow of packages/workflows/src/default.ts calls.
use dark_kitchen_orchestrato.Prelude.{
  ℕ, suc, zero, ◌+◌, ◌*◌, ◌≤◌, String, Bool, true, false, ◌&&◌, Option, or_else, [], length, leb,
  Result, ok, err, arith,
}
use dark_kitchen_orchestrato.Workflows.Verdicts.{JsonApi}
use dark_kitchen_orchestrato.Workflows.Default.{Host, M, Trace, Failure, agent}
use dark_kitchen_orchestrato.Workflows.Default.Stages.{
  ReviewNames, plain_review, phase_of, review_once, run_review_loop, verify_once,
  verification_cycles, run_verification_loop, run_repository_validation,
}
use dark_kitchen_orchestrato.Workflows.Default.Flows.{
  WorkflowOptions, DefaultWorkflowResult, is_set, verify_if, design_frontend_workflow,
}
use dark_kitchen_orchestrato.Workflows.Default.Rules.{
  Post, Ensures, bind-Ensures, pure-Ensures, throw-Ensures, if-Ensures, fact-Ensures, limit-Ensures,
  agent-Ensures,
}

abbrev AtMost : ℕ → Trace → Type 0
AtMost k t = length t ≤ k

module _ (host : Host) (json : JsonApi) (m : ℕ) where
  -- From a trace of at most `k` calls to one of at most `l`, and never to more than `m`.
  abbrev Within : {A : Type 0} → M A → ℕ → ℕ → Type 0
  Within f k l = Ensures f (AtMost k) (AtMost m) (λ a. AtMost l)

  agent-Within :
      (phase role : String) (k l : ℕ) → k + 1 ≤ l → l ≤ m → Within (agent host phase role) k l
  agent-Within phase role k l h c =
      agent-Ensures host (AtMost k) (AtMost m) (λ v. AtMost l) phase role (λ t e b. omega arith)
        (λ t v b. omega arith)

  review_once-Within :
      (names : ReviewNames) (cycle k l : ℕ)
      → k + 1 ≤ l
      → l ≤ m
      → Within (review_once host json names cycle) k l
  review_once-Within names cycle k l h c =
      bind-Ensures
        (agent-Within (phase_of host json names.review_phase cycle) names.reviewer_role k l h c)
        (λ r. pure-Ensures _ (λ t b. b))

  run_review_loop-Within :
      (names : ReviewNames) (left cycle k l : ℕ)
      → k + (2 * left + 1) ≤ l
      → l ≤ m
      → Within (run_review_loop host json names left cycle) k l
  unfolding run_review_loop
  run_review_loop-Within names zero cycle k l h c =
      review_once-Within names cycle k l (omega arith) c
  run_review_loop-Within names (suc left) cycle k l h c =
      bind-Ensures (review_once-Within names cycle k (k + 1) (omega arith) (omega arith)) λ latest.
        if-Ensures latest.passed (λ e. pure-Ensures _ (λ t b. omega arith))
          λ e.
            bind-Ensures
              (agent-Within (phase_of host json names.fix_phase cycle) "fixer" (k + 1) (k + 2)
                (omega arith) (omega arith))
              λ ignored. run_review_loop-Within names left (suc cycle) (k + 2) l (omega arith) c

  verify_once-Within :
      (cycle k l : ℕ) → k + 1 ≤ l → l ≤ m → Within (verify_once host json cycle) k l
  verify_once-Within cycle k l h c =
      bind-Ensures (agent-Within (phase_of host json "verification" cycle) "verifier" k l h c)
        (λ r. pure-Ensures _ (λ t b. b))

  verification_cycles-Within :
      (left cycle k l : ℕ)
      → k + (2 * left + 1) ≤ l
      → l ≤ m
      → Within (verification_cycles host json left cycle) k l
  unfolding verification_cycles
  verification_cycles-Within zero cycle k l h c = verify_once-Within cycle k l (omega arith) c
  verification_cycles-Within (suc left) cycle k l h c =
      bind-Ensures (verify_once-Within cycle k (k + 1) (omega arith) (omega arith)) λ latest.
        if-Ensures latest.passed (λ e. pure-Ensures _ (λ t b. omega arith))
          λ e.
            bind-Ensures
              (agent-Within (phase_of host json "verification-fix" cycle) "fixer" (k + 1) (k + 2)
                (omega arith) (omega arith))
              λ ignored. verification_cycles-Within left (suc cycle) (k + 2) l (omega arith) c

  verify_if-Within :
      (b : Bool) (cycles : ℕ) (delay : Option ℕ) (k l : ℕ)
      → k + (2 * cycles + 1) ≤ l
      → l ≤ m
      → Within (verify_if host json b cycles delay) k l
  unfolding run_verification_loop
  verify_if-Within true cycles delay k l h c =
      bind-Ensures
        (if-Ensures (leb (or_else delay 0) 3600000)
          (λ e. verification_cycles-Within cycles 0 k l h c)
          (λ e. throw-Ensures _ (λ t b. omega arith)))
        (λ v. pure-Ensures _ (λ t b. b))
  verify_if-Within false cycles delay k l h c = pure-Ensures _ (λ t b. omega arith)

module _ (host : Host) (json : JsonApi) (options : WorkflowOptions) where
  bounded :
      Ensures (design_frontend_workflow host json options) (AtMost 0) (AtMost 45) (λ a. AtMost 45)
  unfolding design_frontend_workflow run_repository_validation
  bounded =
      bind-Ensures
        (limit-Ensures (AtMost 0) (AtMost 45) options.max_fix_cycles 2 (λ t h. omega arith))
        λ fixes.
          bind-Ensures
            (limit-Ensures (λ t. (fixes ≤ 10) × AtMost 0 t) (AtMost 45)
              options.max_verification_fix_cycles 2 (λ t h. omega arith))
            λ cycles. fact-Ensures λ few_cycles. fact-Ensures λ few_fixes.
              bind-Ensures
                (agent-Within host json 45 "design" "designer" 0 1 (omega arith) (omega arith))
                λ design.
                  bind-Ensures
                    (agent-Within host json 45 "implementation" "implementer" 1 2 (omega arith)
                      (omega arith))
                    λ impl.
                      bind-Ensures
                        (run_review_loop-Within host json 45 plain_review fixes 0 2 23 (omega arith)
                          (omega arith))
                        λ review.
                          bind-Ensures
                            (verify_if-Within host json 45
                              (is_set options.verification_profile_id && review.passed) cycles
                              options.verification_retry_delay_ms 23 44 (omega arith) (omega arith))
                            λ verified.
                              bind-Ensures
                                (bind-Ensures
                                  (agent-Within host json 45 "repository-validation"
                                    "repository-tester" 44 45 (omega arith) (omega arith))
                                  (λ r. pure-Ensures _ (λ t h. h)))
                                (λ tests_passed. pure-Ensures _ (λ t h. h))

  short_trace :
      (x : Result Failure DefaultWorkflowResult × Trace)
      → Post (AtMost 45) (λ a. AtMost 45) x
      → length x.1 ≤ 45
  short_trace (ok a, t) h = h
  short_trace (err e, t) h = h

  -- The design workflow calls at most 45 agents, whatever its options and whatever the agents answer:
  -- limits above ten are refused, so the loops of fixes are bounded.
  pub length-design_frontend_workflow :
      length (design_frontend_workflow host json options []).1 ≤ 45
  length-design_frontend_workflow =
      short_trace (design_frontend_workflow host json options []) (bounded.run [] (omega arith))
