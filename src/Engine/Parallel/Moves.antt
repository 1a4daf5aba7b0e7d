-- ===== src/Engine/Parallel/Moves.antt =====
-- Every move of the pool of workers keeps its invariant.
use native.Mathlib.Decide.{ℕ_discrete}
use dark_kitchen_orchestrato.Prelude.{
  ℕ, zero, suc, ◌+◌, ◌<◌, ◌≡◌, ◌≢◌, inl, inr, refl, sym, subst, ◌∙◌, Bool, Bool-cases, Option, none,
  some, List, length, length-set, length-replicate, get_elem?, get_elem?-none, get_elem?-set_self,
  get_elem?-set_ne, set, replicate, arith,
}
use dark_kitchen_orchestrato.Engine.Semaphore.{without}
use dark_kitchen_orchestrato.Engine.Semaphore.Invariant.{length-without}
use dark_kitchen_orchestrato.Engine.Parallel.Running.{any-without, any_of-without, any-removed}
use dark_kitchen_orchestrato.Engine.Retry.{Outcome, returned, threw, cancelled, misconfigured}
use dark_kitchen_orchestrato.Engine.Parallel.{
  Pool, min, all_of, open_pool, reject_worker, advance, settle, Move, launches, settles, fires,
  Reach, here, next,
}
use dark_kitchen_orchestrato.Engine.Parallel.Counts.{
  IsCalm, Counted, Counted-results, Counted-reject, reject-IsCalm,
}
use dark_kitchen_orchestrato.Engine.Parallel.Invariant.{
  Inv, Kept, at_work, finish_worker-Inv, reject_worker-Inv, start_factory-Inv,
}

module _ {B E A : Type 0} (May : ℕ → Outcome E A → Type 0) (builders : List B) (workers : ℕ) where
  advance-Inv :
      (s : Pool B E A) → Inv May builders workers 1 s → Inv May builders workers 0 (advance s)
  unfolding advance
  advance-Inv s i = go (get_elem? s.factories s.index) refl
    where
      go :
          (o : Option B)
          → get_elem? s.factories s.index ≡ o
          → Inv May builders workers 0 (advance s)
      go none e =
          rw (e, advance)
            (finish_worker-Inv May builders workers s
              (get_elem?-none builders s.index (rw (sym i.same) e)) i)
      go (some b) e = elim (Bool-cases s.aborted) [
        | inl f ↦ rw (e, f, advance) (reject_worker-Inv May builders workers cancelled (λ c. c) s i)
        | inr f ↦
            rw (e, f, advance) (start_factory-Inv May builders workers b s (rw (sym i.same) e) i)
      ]

  -- A worker has the value of its factory.
  store-Inv :
      (i : ℕ) (a : A) (rest : List ℕ) (s : Pool B E A)
      → without i s.running ≡ some rest
      → May i (returned a)
      → Inv May builders workers 0 s
      → Inv May builders workers 1 (record s { running = rest; results = set s.results i (some a) })
  store-Inv i a rest s w m v = record {
    counted =
        (Counted-results s.pending (s.unlaunched + length rest) s.results (set s.results i (some a))
          s.outcome
          (subst (λ n. Counted s.pending n s.results s.outcome)
            (omega (arith, length-without i s.running w)) v.counted)).0;
    drained = v.drained;
    crew = omega (arith, v.crew, length-without i s.running w);
    same = v.same;
    in_order = v.in_order;
    within = v.within;
    size = length-set s.results i (some a) ∙ v.size;
    below = λ j h. v.below j (any_of-without i j s.running rest w h);
    kept = λ c j h. store_kept j (v.kept c j h);
  }
    where
      place : i < length s.results
      place = omega (arith, v.below i (any-removed i s.running rest w), v.within, v.size)

      store_kept :
          (j : ℕ)
          → Kept May s j
          → Kept May (record s { running = rest; results = set s.results i (some a) }) j
      store_kept j k = elim (ℕ_discrete i j) [
        | yes e ↦
            subst (Kept May (record s { running = rest; results = set s.results i (some a) })) e
              (inr (a, get_elem?-set_self s.results i (some a) place, m))
        | no n ↦ other n k
      ]
        where
          other :
              i ≢ j
              → Kept May s j
              → Kept May (record s { running = rest; results = set s.results i (some a) }) j
          other n (inl r) = inl (any-without i j s.running rest w n r)
          other n (inr (x, e, y)) = inr (x, get_elem?-set_ne s.results i j (some a) n ∙ e, y)

  -- A suspended worker throws.
  throw-Inv :
      (i : ℕ) (o : Outcome E (List (Option A))) (rest : List ℕ) (s : Pool B E A)
      → ¬ IsCalm (some o)
      → without i s.running ≡ some rest
      → Inv May builders workers 0 s
      → Inv May builders workers 0 (reject_worker o (record s { running = rest }))
  unfolding reject_worker
  throw-Inv i o rest s n w v = record {
    counted =
        Counted-reject s.pending (at_work May 0 (record s { running = rest })) s.results o s.outcome
          n shrunk;
    drained = v.drained;
    crew = omega (arith, v.crew, length-without i s.running w);
    same = v.same;
    in_order = v.in_order;
    within = v.within;
    size = v.size;
    below = λ j h. v.below j (any_of-without i j s.running rest w h);
    kept = λ c j h. absurd (
        reject-IsCalm s.pending (at_work May 0 (record s { running = rest })) s.results o s.outcome
          n shrunk c);
  }
    where
      shrunk : Counted s.pending (suc (s.unlaunched + length rest)) s.results s.outcome
      shrunk =
          subst (λ n. Counted s.pending n s.results s.outcome)
            (omega (arith, length-without i s.running w)) v.counted

  settle-Inv :
      (i : ℕ) (o : Outcome E A) (rest : List ℕ) (s : Pool B E A)
      → without i s.running ≡ some rest
      → May i o
      → Inv May builders workers 0 s
      → Inv May builders workers 0 (settle i o (record s { running = rest }))
  unfolding settle
  settle-Inv i (returned a) rest s w m v = advance-Inv _ (store-Inv i a rest s w m v)
  settle-Inv i (threw e) rest s w m v = throw-Inv i (threw e) rest s (λ c. c) w v
  settle-Inv i cancelled rest s w m v = throw-Inv i cancelled rest s (λ c. c) w v
  settle-Inv i misconfigured rest s w m v = throw-Inv i misconfigured rest s (λ c. c) w v

  launch-Inv :
      (u : ℕ) (s : Pool B E A)
      → s.unlaunched ≡ suc u
      → Inv May builders workers 0 s
      → Inv May builders workers 1 (record s { unlaunched = u })
  launch-Inv u s e v = record {
    counted = subst (λ n. Counted s.pending n s.results s.outcome) (omega (arith, e)) v.counted;
    drained = v.drained;
    crew = omega (arith, v.crew, e);
    same = v.same;
    in_order = v.in_order;
    within = v.within;
    size = v.size;
    below = v.below;
    kept = v.kept;
  }

  Move-Inv :
      {s t : Pool B E A}
      → Move May s t
      → Inv May builders workers 0 s
      → Inv May builders workers 0 t
  Move-Inv {s} (launches u e) v = advance-Inv _ (launch-Inv u s e v)
  Move-Inv {s} (settles i o rest w m) v = settle-Inv i o rest s w m v
  Move-Inv fires v = record {
    counted = v.counted;
    drained = v.drained;
    crew = v.crew;
    same = v.same;
    in_order = v.in_order;
    within = v.within;
    size = v.size;
    below = v.below;
    kept = v.kept;
  }

  pub Reach-Inv :
      {s t : Pool B E A}
      → Inv May builders workers 0 s
      → Reach May s t
      → Inv May builders workers 0 t
  Reach-Inv v here = v
  Reach-Inv v (next r m) = Move-Inv m (Reach-Inv v r)

-- Before any worker.
Counted-all_of :
    (E : Type 0) {A : Type 0} (n : ℕ) (rs : List (Option A))
    → Counted n (n + 0) rs (all_of {E = E} n rs)
Counted-all_of E zero rs = (refl, omega arith, refl)
Counted-all_of E (suc n) rs = omega arith

pub open_pool-Inv :
    {B E A : Type 0} (May : ℕ → Outcome E A → Type 0) (limit : ℕ) (builders : List B)
    (aborted : Bool)
    → Inv May builders
        (min (suc limit) (length builders))
        0
        (open_pool (suc limit) builders aborted)
unfolding open_pool
open_pool-Inv May limit builders aborted = record {
  counted = Counted-all_of _ (min (suc limit) (length builders)) (replicate (length builders) none);
  drained = λ e. ground arith;
  crew = omega arith;
  same = refl;
  in_order = refl;
  within = omega arith;
  size = length-replicate (length builders) none;
  below = λ j h. absurd (cc);
  kept = λ c j h. absurd (omega arith);
}
