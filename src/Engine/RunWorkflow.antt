-- ===== src/Engine/RunWorkflow.antt =====
-- `runWorkflow` of packages/workflow-engine/src/engine.ts. The body is an argument; so is when the
-- signal, the caller's or the run's own, fires. A progress callback is taken to return.
use dark_kitchen_orchestrato.Prelude.{
  ℕ, String, ◌≡◌, refl, Bool, true, false, ◌||◌, Option, none, some, Option-cases, inl, inr, ◌⊎◌,
  or_else, List, [], ◌∷◌,
}
use dark_kitchen_orchestrato.Engine.Semaphore.{Semaphore, create}
use dark_kitchen_orchestrato.Engine.Retry.{Outcome, returned, threw, cancelled, misconfigured}
use dark_kitchen_orchestrato.Engine.Keys.{WorkflowBuilder, root_key_context, new_builder}

-- The progress events of a whole run.
pub data RunEvent : Type 0 where
  workflow_start workflow_complete workflow_cancel : RunEvent

-- Whether the signal has fired when the body is raced, fires before the body settles, and has fired
-- when a failure is caught.
pub record Fired : Type 0 where
  pub already : Bool
  pub before_body : Bool
  pub at_catch : Bool

pub record WorkflowRun (E R : Type 0) : Type 0 where
  pub events : List RunEvent
  -- The body is called also if the signal has fired already.
  pub invoked : Bool
  pub outcome : Outcome E R

module _ {E R : Type 0} where
  -- `raceWithSignal`
  abbrev pub race_with_signal : Fired → Outcome E R → Outcome E R
  race_with_signal f o = elim (f.already || f.before_body) [ true ↦ cancelled | false ↦ o ]

  -- What follows the race; a failure while the signal has fired counts as a cancellation.
  unfoldable pub conclude_run : Bool → Outcome E R → WorkflowRun E R
  conclude_run at_catch (returned r) = record {
    events = workflow_start ∷ workflow_complete ∷ [];
    invoked = true;
    outcome = returned r;
  }
  conclude_run at_catch cancelled = record {
    events = workflow_start ∷ workflow_cancel ∷ [];
    invoked = true;
    outcome = cancelled;
  }
  conclude_run at_catch o = elim at_catch [
    | true ↦ record {
      events = workflow_start ∷ workflow_cancel ∷ [];
      invoked = true;
      outcome = cancelled;
    }
    | false ↦ record { events = workflow_start ∷ []; invoked = true; outcome = o }
  ]

  -- `runWorkflow`; a limit that is no positive integer is refused before anything is reported.
  unfoldable pub run_workflow :
      (run_id : String)
      → (concurrency : Option ℕ) → Fired
      → (ℕ → Semaphore → WorkflowBuilder → Outcome E R)
      → WorkflowRun E R
  unfolding create conclude_run
  run_workflow run_id concurrency f fn =
      let limit = or_else concurrency 8 in
      elim (create limit) [
        | none ↦ record { events = []; invoked = false; outcome = misconfigured }
        | some limiter ↦
            conclude_run f.at_catch
              (race_with_signal f (fn limit limiter (new_builder (root_key_context run_id))))
      ]

  -- The events of a run against its outcome.
  abbrev pub Reported : WorkflowRun E R → Outcome E R → Type 0
  Reported x (returned r) =
      (x.events ≡ workflow_start ∷ workflow_complete ∷ []) × (x.invoked ≡ true)
  Reported x cancelled = (x.events ≡ workflow_start ∷ workflow_cancel ∷ []) × (x.invoked ≡ true)
  Reported x (threw e) = (x.events ≡ workflow_start ∷ []) × (x.invoked ≡ true)
  Reported x misconfigured = (x.events ≡ []) ⊎ (x.events ≡ workflow_start ∷ [])

  conclude_run-Reported :
      (b : Bool) (o : Outcome E R) → Reported (conclude_run b o) (conclude_run b o).outcome
  unfolding conclude_run
  conclude_run-Reported b (returned r) = (refl, refl)
  conclude_run-Reported b cancelled = (refl, refl)
  conclude_run-Reported true (threw e) = (refl, refl)
  conclude_run-Reported false (threw e) = (refl, refl)
  conclude_run-Reported true misconfigured = (refl, refl)
  conclude_run-Reported false misconfigured = inr refl

  -- A run reports its completion exactly when it returns and its cancellation exactly when it is
  -- cancelled; a run that throws another error reports its start alone, and one whose limit is
  -- refused nothing.
  pub run_workflow-Reported :
      (run_id : String) (concurrency : Option ℕ) (f : Fired)
      (fn : ℕ → Semaphore → WorkflowBuilder → Outcome E R)
      → Reported
          (run_workflow run_id concurrency f fn)
          (run_workflow run_id concurrency f fn).outcome
  unfolding run_workflow
  run_workflow-Reported run_id concurrency f fn =
      elim (Option-cases (create (or_else concurrency 8))) [
        | inl e ↦ rw (e, run_workflow) (inl refl)
        | inr (s, e) ↦ rw (e, run_workflow) (conclude_run-Reported f.at_catch _)
      ]
