-- ===== src/Engine/Parallel/Stopping.antt =====
-- A signal that fires stops `parallel` from calling more factories.
use dark_kitchen_orchestrato.Prelude.{
  ℕ, suc, ◌<◌, ◌≡◌, ◌≢◌, refl, ◌∙◌, subst, Bool, true, Option, some, Option-cases, inl, inr, List,
  length, get_elem?, set, arith,
}
use dark_kitchen_orchestrato.Engine.Retry.{Outcome, returned, threw, cancelled, misconfigured}
use dark_kitchen_orchestrato.Engine.Parallel.{
  Pool, open_pool, finish_worker, reject_worker, advance, settle, Move, launches, settles, fires,
  Reach, here, next,
}
use dark_kitchen_orchestrato.Engine.Parallel.Counts.{Counted}
use dark_kitchen_orchestrato.Engine.Parallel.Invariant.{at_work}
use dark_kitchen_orchestrato.Engine.Parallel.Moves.{Reach-Inv, open_pool-Inv}

module _ {B E A : Type 0} where
  -- Nothing more was called from one state to another.
  abbrev SameCalls : Pool B E A → Pool B E A → Type 0
  SameCalls s t = (t.aborted ≡ true) × (t.started ≡ s.started) × (t.index ≡ s.index)

  advance-SameCalls : (s : Pool B E A) → s.aborted ≡ true → SameCalls s (advance s)
  unfolding advance finish_worker reject_worker
  advance-SameCalls s f = elim (Option-cases (get_elem? s.factories s.index)) [
    | inl e ↦ rw (e, advance) (f, refl, refl)
    | inr (b, e) ↦ rw (e, f, advance) (f, refl, refl)
  ]

  settle-SameCalls :
      (i : ℕ) (o : Outcome E A) (s : Pool B E A) → s.aborted ≡ true → SameCalls s (settle i o s)
  unfolding settle reject_worker
  settle-SameCalls i (returned a) s f =
      advance-SameCalls (record s { results = set s.results i (some a) }) f
  settle-SameCalls i (threw e) s f = (f, refl, refl)
  settle-SameCalls i cancelled s f = (f, refl, refl)
  settle-SameCalls i misconfigured s f = (f, refl, refl)

module _ {B E A : Type 0} (May : ℕ → Outcome E A → Type 0) where
  Move-SameCalls : {s t : Pool B E A} → Move May s t → s.aborted ≡ true → SameCalls s t
  Move-SameCalls {s} (launches u e) f = advance-SameCalls (record s { unlaunched = u }) f
  Move-SameCalls {s} (settles i o rest w m) f = settle-SameCalls i o (record s { running = rest }) f
  Move-SameCalls fires f = (refl, refl, refl)

  Reach-SameCalls : {s t : Pool B E A} → Reach May s t → s.aborted ≡ true → SameCalls s t
  Reach-SameCalls here f = (f, refl, refl)
  Reach-SameCalls (next r m) f =
      let (a, b, c) = Reach-SameCalls r f in
      let (a', b', c') = Move-SameCalls m a in (a', b' ∙ b, c' ∙ c)

  -- Once the signal has fired no further factory is called, and if some were left to call then
  -- `parallel` does not return.
  pub fired-stops :
      (limit : ℕ) (builders : List B) (aborted : Bool) (s t : Pool B E A)
      → Reach May (open_pool (suc limit) builders aborted) s
      → s.aborted ≡ true
      → Reach May s t
      → (t.started ≡ s.started)
        × (s.index < length builders → (rs : List (Option A)) → t.outcome ≢ some (returned rs))
  fired-stops limit builders aborted s t r f q =
      let v =
        Reach-Inv May builders _
          (Reach-Inv May builders _ (open_pool-Inv May limit builders aborted) r) q in
      let c = Reach-SameCalls q f in
      (
        c.1,
        λ h rs e.
            let d = subst (Counted t.pending (at_work May 0 t) t.results) e v.counted in
            omega (arith, v.drained d.0, c.2, h),
      )
