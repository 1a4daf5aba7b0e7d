-- ===== src/Engine/Semaphore.antt =====
-- `AsyncSemaphore` of packages/workflow-engine/src/engine.ts. Each call of `acquire` is named by a
-- ticket; a signal by a number. What the promises of the calls came to is kept in the state.
pub mod Invariant
pub mod Fairness
use dark_kitchen_orchestrato.Prelude.{
  ℕ, zero, suc, ◌+◌, Bool, true, false, not, ◌||◌, Option, none, some, List, [], ◌∷◌, ◌++◌, filter,
  any, nat_eq, ltb, if◌then◌else◌,
}

-- An entry of `waiters`: who waits, and for which signal.
pub record Waiter : Type 0 where
  pub ticket : ℕ
  pub signal : ℕ

pub record Semaphore : Type 0 where
  pub available : ℕ
  pub waiters : List Waiter
  -- The tickets whose release function is handed out and not called yet.
  pub holders : List ℕ
  -- The tickets whose promise was rejected with `WorkflowCancelledError`.
  pub cancelled : List ℕ
  -- The signals that have fired.
  pub aborted : List ℕ
  -- The next ticket.
  pub next : ℕ

-- The constructor; a limit that is no positive integer is refused.
unfoldable pub create : ℕ → Option Semaphore
create zero = none
create (suc n) = some (record {
  available = suc n;
  waiters = [];
  holders = [];
  cancelled = [];
  aborted = [];
  next = 0;
})

abbrev pub is_aborted : Semaphore → ℕ → Bool
is_aborted s signal = any (nat_eq signal) s.aborted

-- `acquire(signal)`
unfoldable pub acquire : ℕ → Semaphore → Semaphore
acquire signal s =
    let t = s.next in
    let s' = record s { next = suc s.next } in
    if is_aborted s signal then record s' { cancelled = t ∷ s.cancelled } else elim s.available [
      | suc n ↦ record s' { available = n; holders = t ∷ s.holders }
      | zero ↦ record s' { waiters = s.waiters ++ record { ticket = t; signal = signal } ∷ [] }
    ]

-- The `while` loop of a release function: the first waiter whose signal has not fired takes the
-- slot over; without one the slot is free again.
unfoldable pub hand_over : List Waiter → Semaphore → Semaphore
hand_over [] s = record s { waiters = []; available = suc s.available }
hand_over (w ∷ ws) s = elim (is_aborted s w.signal) [
  | true ↦ hand_over ws (record s { cancelled = w.ticket ∷ s.cancelled })
  | false ↦ record s { waiters = ws; holders = w.ticket ∷ s.holders }
]

-- The holders without one ticket, if it is among them.
abbrev pub without : ℕ → List ℕ → Option (List ℕ)
without t [] = none
without t (h ∷ hs) =
    if nat_eq t h then some hs else elim (without t hs) [ none ↦ none | some r ↦ some (h ∷ r) ]

-- A call of the release function of a ticket. Only the first call has an effect.
unfoldable pub release : ℕ → Semaphore → Semaphore
unfolding hand_over
release t s = elim (without t s.holders) [
  | none ↦ s
  | some hs ↦ hand_over s.waiters (record s { holders = hs })
]

abbrev pub tickets : List Waiter → List ℕ
tickets [] = []
tickets (w ∷ ws) = w.ticket ∷ tickets ws

-- A signal fires: the `onAbort` of each of its waiters takes it off the list and rejects it.
unfoldable pub abort : ℕ → Semaphore → Semaphore
abort signal s = record s {
  aborted = signal ∷ s.aborted;
  waiters = filter (λ w. not (nat_eq signal w.signal)) s.waiters;
  cancelled = tickets (filter (λ w. nat_eq signal w.signal) s.waiters) ++ s.cancelled;
}

-- What may happen to a semaphore.
pub data Event : Type 0 where
  acquired released fired : ℕ → Event

unfoldable pub step : Event → Semaphore → Semaphore
unfolding acquire release abort
step (acquired signal) s = acquire signal s
step (released t) s = release t s
step (fired signal) s = abort signal s

unfoldable pub run : List Event → Semaphore → Semaphore
run [] s = s
run (e ∷ es) s = run es (step e s)
