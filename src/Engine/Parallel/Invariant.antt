-- ===== src/Engine/Parallel/Invariant.antt =====
-- What holds of the pool of workers of `parallel` at every moment.
use native.Mathlib.Decide.{ℕ_discrete}
use dark_kitchen_orchestrato.Prelude.{
  ℕ, zero, suc, ◌+◌, ◌-◌, ◌≤◌, ◌<◌, ◌≡◌, ◌⊎◌, inl, inr, refl, sym, subst, true, Option, some, List,
  [], ◌∷◌, ◌++◌, length, length-append, get_elem?, get_elem?-some, take, take-get_elem?, any,
  nat_eq, arith,
}
use dark_kitchen_orchestrato.Engine.Parallel.Running.{any-snoc, any-last, any_of-snoc}
use dark_kitchen_orchestrato.Engine.Retry.{Outcome, returned}
use dark_kitchen_orchestrato.Engine.Parallel.{Pool, finish_worker, reject_worker, start_factory}
use dark_kitchen_orchestrato.Engine.Parallel.Counts.{
  IsCalm, Counted, Counted-finish, Counted-reject, Counted-results, finish-IsCalm, reject-IsCalm,
}

module _ {B E A : Type 0} (May : ℕ → Outcome E A → Type 0) where
  -- Factory `j` has not ended, or ended with the value in its place.
  abbrev pub Kept : Pool B E A → ℕ → Type 0
  Kept s j =
      (any (nat_eq j) s.running ≡ true)
      ⊎ ((a : A) × (get_elem? s.results j ≡ some (some a)) × May j (returned a))

  -- The workers that have not ended, `extra` of which are between two awaits.
  abbrev pub at_work : ℕ → Pool B E A → ℕ
  at_work zero s = s.unlaunched + length s.running
  at_work (suc k) s = suc (at_work k s)

  pub record Inv (builders : List B) (workers extra : ℕ) (s : Pool B E A) : Type 0 where
    pub counted : Counted s.pending (at_work extra s) s.results s.outcome
    pub drained : s.pending ≡ 0 → length builders ≤ s.index
    pub crew : at_work extra s ≤ workers
    pub same : s.factories ≡ builders
    pub in_order : s.started ≡ take s.index builders
    pub within : s.index ≤ length builders
    pub size : length s.results ≡ length builders
    pub below : (j : ℕ) → any (nat_eq j) s.running ≡ true → j < s.index
    pub kept : IsCalm s.outcome → (j : ℕ) → j < s.index → Kept s j

  module _ (builders : List B) (workers : ℕ) where
    pub finish_worker-Inv :
        (s : Pool B E A)
        → length builders ≤ s.index
        → Inv builders workers 1 s
        → Inv builders workers 0 (finish_worker s)
    unfolding finish_worker
    finish_worker-Inv s done i = record {
      counted =
          Counted-finish s.pending (s.pending - 1) (at_work 0 s) s.results s.outcome refl i.counted;
      drained = λ _. done;
      crew = omega (arith, i.crew);
      same = i.same;
      in_order = i.in_order;
      within = i.within;
      size = i.size;
      below = i.below;
      kept = λ c j h. i.kept (finish-IsCalm (s.pending - 1) s.results s.outcome c) j h;
    }

    pub reject_worker-Inv :
        (o : Outcome E (List (Option A)))
        → ¬ IsCalm (some o)
        → (s : Pool B E A) → Inv builders workers 1 s
        → Inv builders workers 0 (reject_worker o s)
    unfolding reject_worker
    reject_worker-Inv o bad s i = record {
      counted = Counted-reject s.pending (at_work 0 s) s.results o s.outcome bad i.counted;
      drained = i.drained;
      crew = omega (arith, i.crew);
      same = i.same;
      in_order = i.in_order;
      within = i.within;
      size = i.size;
      below = i.below;
      kept = λ c j h.
          absurd (reject-IsCalm s.pending (at_work 0 s) s.results o s.outcome bad i.counted c);
    }

    pub start_factory-Inv :
        (b : B) (s : Pool B E A)
        → get_elem? builders s.index ≡ some b
        → Inv builders workers 1 s
        → Inv builders workers 0 (start_factory b s)
    unfolding start_factory
    start_factory-Inv b s g i = record {
      counted =
          subst (λ n. Counted s.pending n s.results s.outcome)
            (omega (arith, length-append s.running (s.index ∷ []))) i.counted;
      drained = λ z. absurd (
          omega (
            arith,
            (Counted-results s.pending (at_work 0 s) s.results s.results s.outcome i.counted).1,
          ));
      crew = omega (arith, i.crew, length-append s.running (s.index ∷ []));
      same = i.same;
      in_order = rw i.in_order (sym (take-get_elem? builders s.index g));
      within = get_elem?-some builders s.index g;
      size = i.size;
      below = λ j h. below' j h;
      kept = λ c j h. kept' c j h;
    }
      where
        below' : (j : ℕ) → any (nat_eq j) (s.running ++ s.index ∷ []) ≡ true → j < suc s.index
        below' j h = elim (ℕ_discrete s.index j) [
          | yes e ↦ omega arith
          | no n ↦ omega (arith, i.below j (any_of-snoc j s.running s.index h n))
        ]

        kept' : IsCalm s.outcome → (j : ℕ) → j < suc s.index → Kept (start_factory b s) j
        kept' c j h = elim (ℕ_discrete s.index j) [
          | yes e ↦ inl (
              subst (λ k. any (nat_eq k) (s.running ++ s.index ∷ []) ≡ true) e
                (any-last s.running s.index))
          | no n ↦ old (i.kept c j (omega arith))
        ]
          where
            old : Kept s j → Kept (start_factory b s) j
            old (inl r) = inl (any-snoc j s.running s.index r)
            old (inr x) = inr x
