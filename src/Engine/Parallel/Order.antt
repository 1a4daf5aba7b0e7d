-- ===== src/Engine/Parallel/Order.antt =====
-- What `parallel` returns: a value for each factory, in the place of the factory.
use dark_kitchen_orchestrato.Prelude.{
  ℕ, suc, ◌≤◌, ◌<◌, ◌≡◌, subst, ap, sym, ◌∙◌, inl, inr, Bool, Option, some, List, length, get_elem?,
  take, take_all, arith,
}
use dark_kitchen_orchestrato.Engine.Retry.{Outcome, returned}
use dark_kitchen_orchestrato.Engine.Parallel.Running.{not-any_of_empty}
use dark_kitchen_orchestrato.Engine.Parallel.{Pool, min, open_pool, Reach}
use dark_kitchen_orchestrato.Engine.Parallel.Counts.{IsCalm, Counted}
use dark_kitchen_orchestrato.Engine.Parallel.Invariant.{Inv, Kept, at_work}
use dark_kitchen_orchestrato.Engine.Parallel.Moves.{Reach-Inv, open_pool-Inv}

module _ {B E A : Type 0} (May : ℕ → Outcome E A → Type 0) (limit : ℕ) (builders : List B)
    (aborted : Bool) where
  at_end :
      (s : Pool B E A) (rs : List (Option A))
      → Inv May builders (min (suc limit) (length builders)) 0 s
      → s.outcome ≡ some (returned rs)
      → (s.pending ≡ 0) × (at_work May 0 s ≡ 0) × (rs ≡ s.results)
  at_end s rs v e = subst (Counted s.pending (at_work May 0 s) s.results) e v.counted

  value_of :
      (s : Pool B E A) (i : ℕ)
      → length s.running ≡ 0
      → Kept May s i
      → (a : A) × (get_elem? s.results i ≡ some (some a)) × May i (returned a)
  value_of s i e (inl h) = absurd (not-any_of_empty i s.running e h)
  value_of s i e (inr x) = x

  -- However the workers are scheduled, no more of them run at once than the limit and the number of
  -- factories allow, and the factories called so far are the first ones of the list, each called
  -- once, in their order and with the child builder of its place.
  pub running-le :
      (s : Pool B E A)
      → Reach May (open_pool (suc limit) builders aborted) s
      → (length s.running ≤ min (suc limit) (length builders)) × (s.started ≡ take s.index builders)
  running-le s r =
      let v = Reach-Inv May builders _ (open_pool-Inv May limit builders aborted) r in
      (omega (arith, v.crew), v.in_order)

  -- Once `parallel` returns, it returns as many results as there are factories, and the result at
  -- each place is a value that the factory of that place ended with, however the workers were
  -- scheduled; each factory was called once, in order and with the child builder of its place.
  pub parallel_returns :
      (s : Pool B E A) (rs : List (Option A))
      → Reach May (open_pool (suc limit) builders aborted) s
      → s.outcome ≡ some (returned rs)
      → (length rs ≡ length builders)
        × (s.started ≡ builders)
        × ((i : ℕ)
            → i < length builders
            → (a : A) × (get_elem? rs i ≡ some (some a)) × May i (returned a))
  parallel_returns s rs r e =
      let v = Reach-Inv May builders _ (open_pool-Inv May limit builders aborted) r in
      let c = at_end s rs v e in
      (
        ap length c.2 ∙ v.size,
        v.in_order ∙ take_all s.index builders (v.drained c.0),
        λ i h. rw c.2 (
            value_of s i (omega (arith, c.1))
              (v.kept (subst IsCalm (sym e) tt) i (omega (arith, h, v.drained c.0)))),
      )
