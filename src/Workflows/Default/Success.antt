-- ===== src/Workflows/Default/Success.antt =====
-- What stands behind a success of the design workflow of packages/workflows/src/default.ts, and how
-- many agents it calls.
use dark_kitchen_orchestrato.Prelude.{
  ℕ, suc, zero, ◌≤◌, String, ◌≡◌, ◌≢◌, refl, Bool, true, false, ◌&&◌, Option, none, some, or_else,
  [], ◌∷◌, leb, Result, ok, err, if◌then◌else◌, arith,
}
use dark_kitchen_orchestrato.Workflows.Verdicts.{
  JsonApi, Value, Verdict, parse_review_result, parse_verification_result,
}
use dark_kitchen_orchestrato.Workflows.Default.{
  Host, Trace, Failure, called, asked, success, outcome_status,
}
use dark_kitchen_orchestrato.Workflows.Default.Stages.{
  ReviewNames, plain_review, phase_of, review_once, run_review_loop, verify_once,
  verification_cycles, run_verification_loop, run_repository_validation,
}
use dark_kitchen_orchestrato.Workflows.Default.Flows.{
  WorkflowOptions, DefaultWorkflowResult, is_set, passed_of, verify_if, design_frontend_workflow,
}
use dark_kitchen_orchestrato.Workflows.Default.Rules.{
  Post, Ensures, bind-Ensures, pure-Ensures, throw-Ensures, if-Ensures, limit-Ensures,
  agent-Ensures,
}

abbrev Anything : Trace → Type 0
Anything t = Unit

not_false : (b : Bool) → some b ≢ some false → b ≡ true
not_false true h = refl
not_false false h = absurd (h refl)

outcome_success :
    (a b : Bool) (o : Option Bool)
    → outcome_status a b o ≡ success
    → (a ≡ true) × (b ≡ true) × (o ≢ some false)
unfolding outcome_status
outcome_success true true (some true) h = (refl, refl, λ q. absurd (cc))
outcome_success true true (some false) h = absurd (cc)
outcome_success true true none h = (refl, refl, λ q. absurd (cc))
outcome_success true false o h = absurd (cc)
outcome_success false b o h = absurd (cc)

-- The last call was one of this role, and its verdict passed.
abbrev pub JustPassed : (Value → Verdict) → String → Trace → Type 0
JustPassed parse role (called phase r (ok v) ∷ t) = (r ≡ role) × ((parse v).passed ≡ true)
JustPassed parse role _ = ⊥

-- The last call was one of the repository tester, whose verdict passed, and before it stood `P`.
abbrev pub Tested : JsonApi → (Trace → Type 0) → Trace → Type 0
Tested json P (called phase r (ok v) ∷ t) =
    (r ≡ "repository-tester") × ((parse_review_result json v).passed ≡ true) × P t
Tested json P _ = ⊥

module _ (host : Host) (json : JsonApi) where
  abbrev ReviewEnds : String → Verdict → Trace → Type 0
  ReviewEnds role v t = v.passed ≡ true → JustPassed (parse_review_result json) role t

  review_once-Ensures :
      (names : ReviewNames) (cycle : ℕ)
      → Ensures
          (review_once host json names cycle)
          Anything
          Anything
          (ReviewEnds names.reviewer_role)
  review_once-Ensures names cycle =
      bind-Ensures
        (agent-Ensures host Anything Anything
          (λ v t.
            (parse_review_result json v).passed ≡ true
            → JustPassed (parse_review_result json) names.reviewer_role t)
          (phase_of host json names.review_phase cycle) names.reviewer_role (λ t e h. tt)
          (λ t v h p. (refl, p)))
        (λ v. pure-Ensures _ (λ t h. h))

  run_review_loop-Ensures :
      (names : ReviewNames) (left cycle : ℕ)
      → Ensures
          (run_review_loop host json names left cycle)
          Anything
          Anything
          (ReviewEnds names.reviewer_role)
  unfolding run_review_loop
  run_review_loop-Ensures names zero cycle = review_once-Ensures names cycle
  run_review_loop-Ensures names (suc left) cycle =
      bind-Ensures (review_once-Ensures names cycle) λ latest.
        if-Ensures latest.passed (λ e. pure-Ensures _ (λ t h. h))
          λ e.
            bind-Ensures
              (agent-Ensures host (ReviewEnds names.reviewer_role latest) Anything (λ v. Anything)
                (phase_of host json names.fix_phase cycle) "fixer" (λ t e h. tt) (λ t v h. tt))
              (λ ignored. run_review_loop-Ensures names left (suc cycle))

  abbrev VerificationEnds : Verdict → Trace → Type 0
  VerificationEnds v t = v.passed ≡ true → JustPassed (parse_verification_result json) "verifier" t

  verify_once-Ensures :
      (S : Trace → Type 0) (cycle : ℕ)
      → Ensures (verify_once host json cycle) S Anything VerificationEnds
  verify_once-Ensures S cycle =
      bind-Ensures
        (agent-Ensures host S Anything
          (λ v t.
            (parse_verification_result json v).passed ≡ true
            → JustPassed (parse_verification_result json) "verifier" t)
          (phase_of host json "verification" cycle) "verifier" (λ t e h. tt) (λ t v h p. (refl, p)))
        (λ v. pure-Ensures _ (λ t h. h))

  verification_cycles-Ensures :
      (S : Trace → Type 0) (left cycle : ℕ)
      → Ensures (verification_cycles host json left cycle) S Anything VerificationEnds
  unfolding verification_cycles
  verification_cycles-Ensures S zero cycle = verify_once-Ensures S cycle
  verification_cycles-Ensures S (suc left) cycle =
      bind-Ensures (verify_once-Ensures S cycle) λ latest.
        if-Ensures latest.passed (λ e. pure-Ensures _ (λ t h. h))
          λ e.
            bind-Ensures
              (agent-Ensures host (VerificationEnds latest) Anything (λ v. Anything)
                (phase_of host json "verification-fix" cycle) "fixer" (λ t e h. tt) (λ t v h. tt))
              (λ ignored. verification_cycles-Ensures Anything left (suc cycle))

  run_verification_loop-Ensures :
      (S : Trace → Type 0) (cycles : ℕ) (delay : Option ℕ)
      → Ensures (run_verification_loop host json cycles delay) S Anything VerificationEnds
  unfolding run_verification_loop
  run_verification_loop-Ensures S cycles delay =
      if-Ensures (leb (or_else delay 0) 3600000) (λ e. verification_cycles-Ensures S cycles 0)
        (λ e. throw-Ensures _ (λ t h. tt))

  run_repository_validation-Ensures :
      (S : Trace → Type 0)
      → Ensures (run_repository_validation host json) S Anything (λ b t. b ≡ true → Tested json S t)
  unfolding run_repository_validation
  run_repository_validation-Ensures S =
      bind-Ensures
        (agent-Ensures host S Anything
          (λ v t. (parse_review_result json v).passed ≡ true → Tested json S t)
          "repository-validation" "repository-tester" (λ t e h. tt) (λ t v h p. (refl, p, h)))
        (λ v. pure-Ensures _ (λ t h. h))

  module _ (options : WorkflowOptions) where
    -- The independent check that has the last word: the verifier's, if a profile is asked for, and
    -- else the reviewer's.
    abbrev pub Checked : Trace → Type 0
    Checked t =
        if is_set options.verification_profile_id
        then JustPassed (parse_verification_result json) "verifier" t
        else JustPassed (parse_review_result json) "reviewer" t

    -- What is known after the verification.
    abbrev Vouched : Verdict → Option Verdict → Trace → Type 0
    Vouched review o t = review.passed ≡ true → passed_of o ≢ some false → Checked t

    verify_if-Ensures :
        (review : Verdict) (b : Bool) (cycles : ℕ) (delay : Option ℕ)
        → (is_set options.verification_profile_id && review.passed) ≡ b
        → Ensures
            (verify_if host json b cycles delay)
            (ReviewEnds "reviewer" review)
            Anything
            (Vouched review)
    verify_if-Ensures review true cycles delay e =
        bind-Ensures (run_verification_loop-Ensures (ReviewEnds "reviewer" review) cycles delay)
          (λ v. pure-Ensures _ (λ t h p q.
            let wanted : is_set options.verification_profile_id ≡ true = ground (arith, e) in
            rw wanted (h (not_false v.passed q))))
    verify_if-Ensures review false cycles delay e = pure-Ensures _ (λ t h p q.
        let unwanted : is_set options.verification_profile_id ≡ false = ground (arith, e, p) in
        rw unwanted (h p))

    abbrev Justified : DefaultWorkflowResult → Trace → Type 0
    Justified r t = r.status ≡ success → Tested json Checked t

    Tested-map :
        (P Q : Trace → Type 0) (t : Trace)
        → ((u : Trace) → P u → Q u)
        → Tested json P t
        → Tested json Q t
    Tested-map P Q (called phase r (ok v) ∷ t) f h = (h.0, h.1, f t h.2)
    Tested-map P Q (called phase r (err e) ∷ t) f h = h
    Tested-map P Q (asked gate a ∷ t) f h = h
    Tested-map P Q [] f h = h

    design-Ensures :
        Ensures (design_frontend_workflow host json options) Anything Anything Justified
    unfolding design_frontend_workflow
    design-Ensures =
        bind-Ensures (limit-Ensures Anything Anything options.max_fix_cycles 2 (λ t h. tt)) λ fixes.
          bind-Ensures
            (limit-Ensures (λ t. (fixes ≤ 10) × Unit) Anything options.max_verification_fix_cycles 2
              (λ t h. tt))
            λ cycles.
              bind-Ensures
                (agent-Ensures host (λ t. (cycles ≤ 10) × ((fixes ≤ 10) × Unit)) Anything
                  (λ v. Anything) "design" "designer" (λ t e h. tt) (λ t v h. tt))
                λ design.
                  bind-Ensures
                    (agent-Ensures host Anything Anything (λ v. Anything) "implementation"
                      "implementer" (λ t e h. tt) (λ t v h. tt))
                    λ impl. bind-Ensures (run_review_loop-Ensures plain_review fixes 0) λ review.
                      bind-Ensures
                        (verify_if-Ensures review
                          (is_set options.verification_profile_id && review.passed) cycles
                          options.verification_retry_delay_ms refl)
                        λ verified.
                          bind-Ensures (run_repository_validation-Ensures (Vouched review verified))
                            λ tests_passed. pure-Ensures _ (λ t h e.
                              let known =
                                outcome_success review.passed tests_passed (passed_of verified)
                                  (ground (arith, e)) in
                              Tested-map (Vouched review verified) Checked t
                                (λ u k. k known.0 known.2) (h known.1))

    justified :
        (x : Result Failure DefaultWorkflowResult × Trace) (r : DefaultWorkflowResult)
        → Post Anything Justified x
        → x.0 ≡ ok r
        → r.status ≡ success
        → Tested json Checked x.1
    justified (ok a, t) r h e q = h (ground (arith, e, q))
    justified (err f, t) r h e q = absurd (cc)

    -- If the design workflow reports success, its last call was that of the repository tester, who
    -- passed, and the call before that was the independent check: of the verifier if a profile is asked
    -- for, and else of the reviewer, who passed. So nothing was changed after the check.
    pub design_success_lem :
        (r : DefaultWorkflowResult)
        → (design_frontend_workflow host json options []).0 ≡ ok r
        → r.status ≡ success
        → Tested json Checked (design_frontend_workflow host json options []).1
    design_success_lem r e q =
        justified (design_frontend_workflow host json options []) r (design-Ensures.run [] tt) e q
