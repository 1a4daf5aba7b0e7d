-- ===== src/Engine/Parallel.antt =====
-- `parallel` of packages/workflow-engine/src/engine.ts: its workers take the factories in turn. A
-- worker is suspended while it awaits its factory; when each worker begins and which of them goes on
-- next is left open, so that the runs of the code are among those of the model.
mod Running
mod Counts
mod Moves
pub mod Invariant
pub mod Order
pub mod Progress
pub mod Stopping
use dark_kitchen_orchestrato.Prelude.{
  ℕ, zero, suc, ◌+◌, ◌-◌, String, Bool, true, false, ◌≡◌, Option, none, some, or_else, List, [],
  ◌∷◌, ◌++◌, ltb, length, get_elem?, set, replicate, any, nat_eq, if◌then◌else◌,
}
use dark_kitchen_orchestrato.Engine.Semaphore.{without}
use dark_kitchen_orchestrato.Engine.Retry.{Outcome, returned, threw, cancelled, misconfigured}
use dark_kitchen_orchestrato.Engine.Keys.{WorkflowBuilder, parallel_builders}

-- The variables that the workers share. A factory is known by the child builder it is given.
pub record Pool (B E A : Type 0) : Type 0 where
  pub factories : List B
  pub index : ℕ
  pub results : List (Option A)
  -- The workers that have not begun to run.
  pub unlaunched : ℕ
  -- The numbers of the factories that suspended workers await.
  pub running : List ℕ
  -- The workers whose promise `Promise.all` still waits for.
  pub pending : ℕ
  -- What the promise of `Promise.all` came to.
  pub outcome : Option (Outcome E (List (Option A)))
  -- The factories that were called, in the order of the calls.
  pub started : List B
  pub aborted : Bool

-- `Math.min`
abbrev pub min : ℕ → ℕ → ℕ
min a b = if ltb b a then b else a

-- `Promise.all` of no promises is fulfilled at once.
abbrev pub all_of : {E A : Type 0} → ℕ → List (Option A) → Option (Outcome E (List (Option A)))
all_of zero rs = some (returned rs)
all_of (suc n) rs = none

module _ {B E A : Type 0} where
  -- Before the first worker.
  unfoldable pub open_pool : ℕ → List B → Bool → Pool B E A
  open_pool limit factories aborted =
      let workers = min limit (length factories) in
      let results = replicate (length factories) none in
      record {
        factories = factories;
        index = 0;
        results = results;
        unlaunched = workers;
        running = [];
        pending = workers;
        outcome = all_of workers results;
        started = [];
        aborted = aborted;
      }

  -- A worker returns; the promise of all is fulfilled with the last one, unless it was rejected.
  unfoldable pub finish_worker : Pool B E A → Pool B E A
  finish_worker s = record s {
    pending = s.pending - 1;
    outcome = elim s.outcome [ some o ↦ some o | none ↦ all_of (s.pending - 1) s.results ];
  }

  -- A worker throws; the first one that throws decides.
  unfoldable pub reject_worker : Outcome E (List (Option A)) → Pool B E A → Pool B E A
  reject_worker o s = record s { outcome = some (or_else s.outcome o) }

  unfoldable pub start_factory : B → Pool B E A → Pool B E A
  start_factory b s = record s {
    index = suc s.index;
    running = s.running ++ s.index ∷ [];
    started = s.started ++ b ∷ [];
  }

  -- The loop of a worker up to its next `await`. There is a factory at `index` exactly when
  -- `index < factories.length`.
  unfoldable pub advance : Pool B E A → Pool B E A
  unfolding finish_worker reject_worker start_factory
  advance s = elim (get_elem? s.factories s.index) [
    | none ↦ finish_worker s
    | some b ↦ elim s.aborted [ true ↦ reject_worker cancelled s | false ↦ start_factory b s ]
  ]

  -- A worker goes on with what its factory, number `i`, came to.
  unfoldable pub settle : ℕ → Outcome E A → Pool B E A → Pool B E A
  unfolding advance
  settle i (returned a) s = advance (record s { results = set s.results i (some a) })
  settle i (threw e) s = reject_worker (threw e) s
  settle i cancelled s = reject_worker cancelled s
  settle i misconfigured s = reject_worker misconfigured s

  -- What may happen next, where `May i o` says that factory number `i` may end with `o`.
  pub data Move (May : ℕ → Outcome E A → Type 0) (s : Pool B E A) : Pool B E A → Type 0 where
    launches : (u : ℕ) → s.unlaunched ≡ suc u → Move May s (advance (record s { unlaunched = u }))
    settles :
        (i : ℕ) (o : Outcome E A) (rest : List ℕ)
        → without i s.running ≡ some rest
        → May i o
        → Move May s (settle i o (record s { running = rest }))
    fires : Move May s (record s { aborted = true })

  pub data Reach (May : ℕ → Outcome E A → Type 0) (s : Pool B E A) : Pool B E A → Type 0 where
    here : Reach May s s
    next : {t u : Pool B E A} → Reach May s t → Move May t u → Reach May s u

-- `parallel` up to its workers: a limit that is no positive integer is refused before the builder
-- moves on, and no more workers than the engine's own limit run.
unfoldable pub parallel :
    {E A : Type 0}
    → (numeral : ℕ → String) → (max_concurrency : ℕ) → (concurrency : Option ℕ) → ℕ
    → Bool
    → WorkflowBuilder
    → WorkflowBuilder × Option (Pool WorkflowBuilder E A)
unfolding parallel_builders open_pool
parallel numeral max_concurrency concurrency n aborted b =
    elim (or_else concurrency max_concurrency) [
      | zero ↦ (b, none)
      | suc k ↦
          let (b', children) = parallel_builders numeral n b in
          (b', some (open_pool (min (suc k) max_concurrency) children aborted))
    ]
