-- ===== src/Workflows/Default/Approval.antt =====
-- The high-risk workflow of packages/workflows/src/default.ts changes nothing before its approval.
use dark_kitchen_orchestrato.Prelude.{
  ℕ, ◌≤◌, String, ◌≡◌, refl, Bool, true, false, ◌&&◌, ◌⊎◌, inl, inr, Option, [], ◌∷◌, any, Result,
  ok, err,
}
use dark_kitchen_orchestrato.Workflows.Verdicts.{JsonApi, Value, Verdict}
use dark_kitchen_orchestrato.Workflows.Default.{
  Host, M, Trace, Failure, Event, called, asked, Resolution, pending, approved, rejected, Decision,
  granted, refused, decision_of, require_workflow_approval,
}
use dark_kitchen_orchestrato.Workflows.Default.Stages.{plain_review, security_review}
use dark_kitchen_orchestrato.Workflows.Default.Flows.{
  WorkflowOptions, DefaultWorkflowResult, is_set, verify_if, review_after, gate_of, approved_work,
  decided, high_risk_workflow,
}
use dark_kitchen_orchestrato.Workflows.Default.Rules.{
  Post, Ensures, bind-Ensures, pure-Ensures, if-Ensures, limit-Ensures, agent-Ensures, Keeps,
  agent-Keeps, run_review_loop-Keeps, run_verification_loop-Keeps, run_repository_validation-Keeps,
}

abbrev pub is_approval : Event → Bool
is_approval (asked gate (ok (approved id by))) = true
is_approval _ = false

-- Every call of an agent but the architect comes after an approval.
abbrev pub IsGuarded : Trace → Type 0
IsGuarded [] = Unit
IsGuarded (called phase role a ∷ t) =
    ((role ≡ "architect") ⊎ (any is_approval t ≡ true)) × IsGuarded t
IsGuarded (asked gate a ∷ t) = IsGuarded t

abbrev IsOpen : Trace → Type 0
IsOpen t = (any is_approval t ≡ true) × IsGuarded t

call-IsOpen :
    (phase role : String) (a : Result String Value) (t : Trace)
    → IsOpen t
    → IsOpen (called phase role a ∷ t)
call-IsOpen phase role a t h = (h.0, (inr h.0, h.1))

module _ (host : Host) (json : JsonApi) (options : WorkflowOptions) where
  abbrev Opens : {A : Type 0} → M A → Type 0
  Opens m = Keeps host json IsOpen call-IsOpen m

  verify_if-Opens :
      (b : Bool) (cycles : ℕ) (delay : Option ℕ) → Opens (verify_if host json b cycles delay)
  verify_if-Opens true cycles delay =
      bind-Ensures (run_verification_loop-Keeps host json IsOpen call-IsOpen cycles delay)
        (λ v. pure-Ensures _ (λ t h. h))
  verify_if-Opens false cycles delay = pure-Ensures _ (λ t h. h)

  review_after-Opens : (v : Verdict) (fixes : ℕ) → Opens (review_after host json v fixes)
  review_after-Opens v fixes =
      if-Ensures v.passed
        (λ e. run_review_loop-Keeps host json IsOpen call-IsOpen plain_review fixes 0)
        (λ e. pure-Ensures _ (λ t h. h))

  approved_work-Opens : (fixes cycles : ℕ) → Opens (approved_work host json options fixes cycles)
  unfolding approved_work
  approved_work-Opens fixes cycles =
      bind-Ensures (agent-Keeps host json IsOpen call-IsOpen "implementation" "implementer") λ impl.
        bind-Ensures (run_review_loop-Keeps host json IsOpen call-IsOpen security_review fixes 0)
          λ security. bind-Ensures (review_after-Opens security fixes) λ independent.
            bind-Ensures
              (verify_if-Opens
                (is_set options.verification_profile_id && (security.passed && independent.passed))
                cycles options.verification_retry_delay_ms)
              λ verified.
                bind-Ensures (run_repository_validation-Keeps host json IsOpen call-IsOpen)
                  λ tests. pure-Ensures _ (λ t h. h)

  abbrev AfterGate : Decision → Trace → Type 0
  AfterGate (granted id by) t = IsOpen t
  AfterGate (refused reason) t = IsGuarded t

  asks :
      (gate_id : String)
      → Ensures (require_workflow_approval host gate_id) IsGuarded IsGuarded AfterGate
  unfolding require_workflow_approval
  asks gate_id = record { run = λ t h. answered t (host.gate t gate_id) h }
    where
      answered :
          (t : Trace) (a : Result String Resolution)
          → IsGuarded t
          → Post IsGuarded AfterGate (decision_of gate_id a, asked gate_id a ∷ t)
      answered t (ok (pending id)) h = h
      answered t (ok (approved id by)) h = (refl, h)
      answered t (ok (rejected reason)) h = h
      answered t (err e) h = h

  open_guarded :
      (x : Result Failure DefaultWorkflowResult × Trace)
      → Post IsOpen (λ a. IsOpen) x
      → Post IsGuarded (λ a. IsGuarded) x
  open_guarded (ok a, t) h = h.1
  open_guarded (err e, t) h = h.1

  decides :
      (fixes cycles : ℕ) (d : Decision)
      → Ensures (decided host json options fixes cycles d) (AfterGate d) IsGuarded (λ a. IsGuarded)
  decides fixes cycles (granted id by) = record {
    run = λ t h.
        open_guarded (approved_work host json options fixes cycles t)
          ((approved_work-Opens fixes cycles).run t h);
  }
  decides fixes cycles (refused reason) = pure-Ensures _ (λ t h. h)

  works :
      (gate_id : Option String)
      → Ensures (high_risk_workflow host json options gate_id) IsGuarded IsGuarded (λ a. IsGuarded)
  unfolding high_risk_workflow
  works gate_id =
      bind-Ensures (limit-Ensures IsGuarded IsGuarded options.max_fix_cycles 2 (λ t h. h)) λ fixes.
        bind-Ensures
          (limit-Ensures (λ t. (fixes ≤ 10) × IsGuarded t) IsGuarded
            options.max_verification_fix_cycles 2 (λ t h. h.1))
          λ cycles.
            bind-Ensures
              (agent-Ensures host (λ t. (cycles ≤ 10) × ((fixes ≤ 10) × IsGuarded t)) IsGuarded
                (λ v. IsGuarded) "architecture" "architect" (λ t e h. (inl refl, h.1.1))
                (λ t v h. (inl refl, h.1.1)))
              λ architecture.
                bind-Ensures (asks (gate_of host json options gate_id))
                  λ decision. decides fixes cycles decision

  guarded_trace :
      (x : Result Failure DefaultWorkflowResult × Trace)
      → Post IsGuarded (λ a. IsGuarded) x
      → IsGuarded x.1
  guarded_trace (ok a, t) h = h
  guarded_trace (err e, t) h = h

  -- In the high-risk workflow no agent but the architect is called unless the gate has approved before,
  -- whatever the agents and the gate answer, and also where the workflow ends in an error.
  pub high_risk_workflow-IsGuarded :
      (gate_id : Option String) → IsGuarded (high_risk_workflow host json options gate_id []).1
  high_risk_workflow-IsGuarded gate_id =
      guarded_trace (high_risk_workflow host json options gate_id []) ((works gate_id).run [] tt)
