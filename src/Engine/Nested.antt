-- ===== src/Engine/Nested.antt =====
-- `pipeline` and `workflow` of a `WorkflowBuilder`, and `runWorkflow`, of
-- packages/workflow-engine/src/engine.ts, over a state `S` of what is outside. What the signal does
-- is an argument.
pub mod Order
use Prim.Native.String.{◌++◌ as append}
use dark_kitchen_orchestrato.Prelude.{
  ℕ, zero, suc, String, Bool, true, false, Option, none, some, or_else, List, [], ◌∷◌, ◌++◌,
}
use dark_kitchen_orchestrato.Engine.Retry.{
  Outcome, returned, threw, cancelled, misconfigured, RetryPolicy, Aborts, Ended, with_retry,
}
use dark_kitchen_orchestrato.Engine.Keys.{
  KeyContext, child_key_context, root_key_context, WorkflowBuilder, new_builder, next_segment,
}

-- The child builder of a step.
abbrev pub step_builder : (ℕ → String) → KeyContext → String → ℕ → WorkflowBuilder
step_builder numeral ctx segment i =
    new_builder (child_key_context ctx (append segment (append "/step:" (numeral i))))

module _ {S E A : Type 0} where
  -- What follows an awaited call that returned.
  abbrev pub and_then : S × Outcome E A → (A → S → S × Outcome E A) → S × Outcome E A
  and_then (s, returned a) rest = rest a s
  and_then (s, threw e) rest = (s, threw e)
  and_then (s, cancelled) rest = (s, cancelled)
  and_then (s, misconfigured) rest = (s, misconfigured)

  module _ (numeral : ℕ → String) (aborted : ℕ → Bool) where
    -- The loop of `pipeline` from step `i` on; `aborted i` is what the test before it finds.
    unfoldable pub pipeline_from :
        KeyContext
        → String
        → ℕ
        → List (A → WorkflowBuilder → S → S × Outcome E A)
        → A
        → S
        → S × Outcome E A
    pipeline_from ctx segment i [] current s = (s, returned current)
    pipeline_from ctx segment i (step ∷ steps) current s = elim (aborted i) [
      | true ↦ (s, cancelled)
      | false ↦
          and_then (step current (step_builder numeral ctx segment i) s)
            (pipeline_from ctx segment (suc i) steps)
    ]

    -- `pipeline`
    unfoldable pub pipeline :
        A
        → List (A → WorkflowBuilder → S → S × Outcome E A)
        → WorkflowBuilder
        → S
        → WorkflowBuilder × (S × Outcome E A)
    unfolding pipeline_from next_segment
    pipeline initial steps b s =
        let x = next_segment numeral "pipeline" b in
        (x.0, pipeline_from b.key_ctx x.1 0 steps initial s)

  -- The end of a nested workflow that does not begin.
  abbrev pub unstarted : S → Ended S E A
  unstarted s = record { state = s; events = []; calls = 0; outcome = cancelled }

-- `workflow`. All attempts of a retried workflow are given one child builder, so that its counters
-- are part of the state that they share. The signal is looked at before and after the key is taken.
unfoldable pub workflow :
    {S E A : Type 0}
    → (ℕ → String)
    → Bool
    → Bool
    → Aborts
    → String
    → (WorkflowBuilder × S → (WorkflowBuilder × S) × Outcome E A)
    → Option RetryPolicy
    → WorkflowBuilder
    → S
    → WorkflowBuilder × Ended (WorkflowBuilder × S) E A
unfolding next_segment with_retry
workflow numeral at_first then_aborted aborts name fn policy b s = elim at_first [
  | true ↦ (b, unstarted (b, s))
  | false ↦
      let x = next_segment numeral (append "workflow:" name) b in
      let child = new_builder (child_key_context b.key_ctx x.1) in
      elim then_aborted [
        | true ↦ (x.0, unstarted (child, s))
        | false ↦ (x.0, with_retry aborts (λ _. fn) policy (child, s))
      ]
]
