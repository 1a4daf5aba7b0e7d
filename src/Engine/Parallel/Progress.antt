-- ===== src/Engine/Parallel/Progress.antt =====
-- The workers of `parallel` come to an end, and a signal that fires stops them.
use dark_kitchen_orchestrato.Prelude.{
  ℕ, zero, suc, ◌+◌, ◌-◌, ◌≤◌, ◌<◌, ◌≡◌, ◌≢◌, refl, ap, ◌⊎◌, inl, inr, Bool, Bool-cases, Option,
  none, some, Option-cases, List, [], ◌∷◌, length, length-append, get_elem?, get_elem?-some, set,
  arith,
}
use dark_kitchen_orchestrato.Engine.Semaphore.Invariant.{length-without}
use dark_kitchen_orchestrato.Engine.Retry.{Outcome, returned, threw, cancelled, misconfigured}
use dark_kitchen_orchestrato.Engine.Parallel.{
  Pool, min, open_pool, finish_worker, reject_worker, start_factory, advance, settle, launches,
  settles, fires, Reach, here, next,
}
use dark_kitchen_orchestrato.Engine.Parallel.Counts.{Counted}
use dark_kitchen_orchestrato.Engine.Parallel.Invariant.{at_work}
use dark_kitchen_orchestrato.Engine.Parallel.Moves.{Reach-Inv, open_pool-Inv}

module _ {B E A : Type 0} where
  -- The work left: workers to begin or to go on, and factories to call.
  abbrev pub left : Pool B E A → ℕ
  left s = s.unlaunched + length s.running + (length s.factories - s.index)

  -- A worker that goes on does not add to it.
  left-advance : (s : Pool B E A) → left (advance s) ≤ left s
  unfolding advance finish_worker reject_worker start_factory
  left-advance s = elim (Option-cases (get_elem? s.factories s.index)) [
    | inl e ↦ rw (e, advance) (omega arith)
    | inr (b, e) ↦ elim (Bool-cases s.aborted) [
      | inl f ↦ rw (e, f, advance) (omega arith)
      | inr f ↦
          rw (e, f, advance)
            (omega
              (arith, get_elem?-some s.factories s.index e, length-append s.running (s.index ∷ [])))
    ]
  ]

  left-settle : (i : ℕ) (o : Outcome E A) (s : Pool B E A) → left (settle i o s) ≤ left s
  unfolding settle reject_worker
  left-settle i (returned a) s = left-advance (record s { results = set s.results i (some a) })
  left-settle i (threw e) s = omega arith
  left-settle i cancelled s = omega arith
  left-settle i misconfigured s = omega arith

module _ {B E A : Type 0} (May : ℕ → Outcome E A → Type 0) where
  -- The moves of workers on the way.
  abbrev pub worked : {s t : Pool B E A} → Reach May s t → ℕ
  worked here = 0
  worked (next r (launches u e)) = suc (worked r)
  worked (next r (settles i o rest w m)) = suc (worked r)
  worked (next r fires) = worked r

  left-Reach : {s t : Pool B E A} (r : Reach May s t) → worked r + left t ≤ left s
  left-Reach here = omega arith
  left-Reach (next {t} r (launches u e)) =
      omega (arith, left-Reach r, left-advance (record t { unlaunched = u }), e)
  left-Reach (next {t} r (settles i o rest w m)) = omega (
    arith,
    left-Reach r,
    left-settle i o (record t { running = rest }),
    length-without i t.running w,
  )
  left-Reach (next r fires) = left-Reach r

  -- While nothing is decided a worker can go on, if a factory can end.
  works :
      (s : Pool B E A)
      → ((i : ℕ) → (o : Outcome E A) × May i o)
      → 0 < s.unlaunched + length s.running
      → (t : Pool B E A) × (q : Reach May s t) × (worked q ≡ 1)
  works s answers h = go s.unlaunched refl s.running refl
    where
      go :
          (u : ℕ)
          → s.unlaunched ≡ u
          → (ws : List ℕ) → s.running ≡ ws
          → (t : Pool B E A) × (q : Reach May s t) × (worked q ≡ 1)
      go (suc u) e ws f = (advance (record s { unlaunched = u }), next here (launches u e), refl)
      go zero e [] f = absurd (omega (arith, e, ap length f))
      go zero e (i ∷ ws) f = (
        settle i (answers i).0 (record s { running = ws }),
        next here (settles i (answers i).0 ws (rw f (ground arith)) (answers i).1),
        refl,
      )

  undecided :
      (s : Pool B E A) (o : Option (Outcome E (List (Option A))))
      → Counted s.pending (at_work May 0 s) s.results o
      → o ≡ none
      → 0 < s.unlaunched + length s.running
  undecided s none c e = omega (arith, c)
  undecided s (some o) c e = absurd (cc)

  module _ (limit : ℕ) (builders : List B) (aborted : Bool) where
    -- However they are scheduled, the workers move no more often than there are workers and
    -- factories together; and where every factory can end in some way, some worker can move as long
    -- as `parallel` has neither returned nor thrown.
    pub parallel_ends :
        (s : Pool B E A) (answers : (i : ℕ) → (o : Outcome E A) × May i o)
        (r : Reach May (open_pool (suc limit) builders aborted) s)
        → (worked r ≤ min (suc limit) (length builders) + length builders)
          × ((s.outcome ≢ none) ⊎ ((t : Pool B E A) × (q : Reach May s t) × (worked q ≡ 1)))
    unfolding open_pool
    parallel_ends s answers r =
        let v = Reach-Inv May builders _ (open_pool-Inv May limit builders aborted) r in
        (
          omega (arith, left-Reach r),
          elim (Option-cases s.outcome) [
            | inl e ↦ inr (works s answers (undecided s s.outcome v.counted e))
            | inr (o, e) ↦ inl (λ n. cc)
          ],
        )
