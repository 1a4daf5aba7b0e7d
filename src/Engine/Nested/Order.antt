-- ===== src/Engine/Nested/Order.antt =====
-- The steps of a pipeline run one after another, each with the result of the one before and a child
-- builder of its own place.
use mathlib.Core.Path.{fun_ext}
use dark_kitchen_orchestrato.Prelude.{
  ℕ, suc, ◌+◌, ◌≡◌, refl, ap, sym, ◌∙◌, String, Bool, Bool-cases, inl, inr, List, [], ◌∷◌, ◌++◌,
  length, arith,
}
use dark_kitchen_orchestrato.Engine.Retry.{Outcome, returned, threw, cancelled, misconfigured}
use dark_kitchen_orchestrato.Engine.Keys.{KeyContext, WorkflowBuilder}
use dark_kitchen_orchestrato.Engine.Nested.{and_then, step_builder, pipeline_from}

module _ {S E A : Type 0} where
  and_then_assoc :
      (x : S × Outcome E A) (f g : A → S → S × Outcome E A)
      → and_then (and_then x f) g ≡ and_then x (λ a s. and_then (f a s) g)
  and_then_assoc (s, returned a) f g = refl
  and_then_assoc (s, threw e) f g = refl
  and_then_assoc (s, cancelled) f g = refl
  and_then_assoc (s, misconfigured) f g = refl

  module _ (numeral : ℕ → String) (aborted : ℕ → Bool) (ctx : KeyContext) (segment : String) where
    -- A pipeline over two rows of steps is the first row and then the second, whose steps keep the
    -- numbers that they have in the whole.
    pub pipeline_from-append :
        (xs ys : List (A → WorkflowBuilder → S → S × Outcome E A)) (i : ℕ) (a : A) (s : S)
        → pipeline_from numeral aborted ctx segment i (xs ++ ys) a s
          ≡ and_then
              (pipeline_from numeral aborted ctx segment i xs a s)
              (pipeline_from numeral aborted ctx segment (length xs + i) ys)
    unfolding pipeline_from
    pipeline_from-append [] ys i a s =
        ap (λ (n : ℕ). pipeline_from numeral aborted ctx segment n ys a s) (omega arith)
    pipeline_from-append (x ∷ xs) ys i a s = elim (Bool-cases (aborted i)) [
      | inl e ↦ rw (e, pipeline_from)
      | inr e ↦
          rw (e, pipeline_from)
            (ap (and_then (x a (step_builder numeral ctx segment i) s))
                (fun_ext λ a'. fun_ext λ s'. pipeline_from-append xs ys (suc i) a' s')
              ∙ ap
                  (λ (n : ℕ). and_then (x a (step_builder numeral ctx segment i) s) λ a' s'.
                    and_then (pipeline_from numeral aborted ctx segment (suc i) xs a' s')
                      (pipeline_from numeral aborted ctx segment n ys))
                  (omega arith)
              ∙ sym (and_then_assoc (x a (step_builder numeral ctx segment i) s) _ _))
    ]
