-- ===== src/Engine/Semaphore/Invariant.antt =====
-- However it is used, the semaphore never hands out more slots than its limit, and loses none.
use mathlib.Core.Option.{some-injective}
use dark_kitchen_orchestrato.Prelude.{
  ℕ, zero, suc, ◌+◌, ◌<◌, ◌≡◌, ◌≢◌, refl, subst, true, false, not, Option, none, some, Option-cases,
  Bool-cases, inl, inr, List, [], ◌∷◌, ◌++◌, filter, nat_eq, arith, length, All, All-append,
  All-filter, All-map₂, filter_holds,
}
use dark_kitchen_orchestrato.Engine.Semaphore.{
  Waiter, Semaphore, create, is_aborted, acquire, hand_over, without, release, abort, Event,
  acquired, released, fired, step, run,
}

pub record Inv (limit : ℕ) (s : Semaphore) : Type 0 where
  pub conserved : s.available + length s.holders ≡ limit
  pub no_idle_slot : 0 < s.available → s.waiters ≡ []
  pub waiters_live : All (λ w. is_aborted s w.signal ≡ false) s.waiters

pub length-without :
    (t : ℕ) (hs : List ℕ) {r : List ℕ} → without t hs ≡ some r → suc (length r) ≡ length hs
length-without t [] h = absurd (cc)
length-without t (x ∷ xs) h = elim (Bool-cases (nat_eq t x)) [
  | inl e ↦ ground arith
  | inr e ↦ elim (Option-cases (without t xs)) [
    | inl n ↦ absurd (ground arith)
    | inr (r', q) ↦ ground (arith, length-without t xs q)
  ]
]

release_stale : (t : ℕ) (s : Semaphore) → without t s.holders ≡ none → release t s ≡ s
unfolding release
release_stale t s e = ground arith

pub release_held :
    (t : ℕ) (s : Semaphore) {hs : List ℕ}
    → without t s.holders ≡ some hs
    → release t s ≡ hand_over s.waiters (record s { holders = hs })
unfolding release
release_held t s e = ground arith

pub hand_over_live :
    (w : Waiter) (ws : List Waiter) (s : Semaphore)
    → is_aborted s w.signal ≡ false
    → hand_over (w ∷ ws) s ≡ record s { waiters = ws; holders = w.ticket ∷ s.holders }
unfolding hand_over
hand_over_live w ws s l = ground arith

create_lem : (n : ℕ) {s : Semaphore} → create n ≡ some s → Inv n s
unfolding create
create_lem zero h = absurd (cc)
create_lem (suc n) h =
    subst (Inv (suc n)) (some-injective _ _ h)
      (record { conserved = omega arith; no_idle_slot = λ k. refl; waiters_live = tt })

-- The three ways of `acquire`.
data Acquired (signal : ℕ) (s : Semaphore) : Type 0 where
  refused :
      acquire signal s ≡ record s { cancelled = s.next ∷ s.cancelled; next = suc s.next }
      → Acquired signal s
  granted :
      (n : ℕ)
      → s.available ≡ suc n
      → acquire signal s
        ≡ record s { available = n; holders = s.next ∷ s.holders; next = suc s.next }
      → Acquired signal s
  queued :
      s.available ≡ 0
      → is_aborted s signal ≡ false
      → acquire signal s ≡ record s {
        waiters = s.waiters ++ record { ticket = s.next; signal = signal } ∷ [];
        next = suc s.next;
      }
      → Acquired signal s

Acquired_of : (signal : ℕ) (s : Semaphore) → Acquired signal s
unfolding acquire
Acquired_of signal s = elim (Bool-cases (is_aborted s signal)) [
  | inl e ↦ refused (ground arith)
  | inr e ↦ go s.available refl e
]
  where
    go : (n : ℕ) → s.available ≡ n → is_aborted s signal ≡ false → Acquired signal s
    go zero q e = queued q e (ground arith)
    go (suc n) q e = granted n q (ground arith)

module _ (limit : ℕ) where
  acquire-Inv : (signal : ℕ) (s : Semaphore) → Inv limit s → Inv limit (acquire signal s)
  acquire-Inv signal s i = go (Acquired_of signal s)
    where
      go : Acquired signal s → Inv limit (acquire signal s)
      go (refused e) = rw e (record {
        conserved = i.conserved;
        no_idle_slot = i.no_idle_slot;
        waiters_live = i.waiters_live;
      })
      go (granted n q e) = rw e (record {
        conserved = omega (arith, i.conserved);
        no_idle_slot = λ h. i.no_idle_slot (omega arith);
        waiters_live = i.waiters_live;
      })
      go (queued q l e) = rw e (record {
        conserved = i.conserved;
        no_idle_slot = λ h. absurd (omega arith);
        waiters_live =
            All-append (λ w. is_aborted s w.signal ≡ false) s.waiters
              (record { ticket = s.next; signal = signal } ∷ []) i.waiters_live (l, tt);
      })

  abort-Inv : (signal : ℕ) (s : Semaphore) → Inv limit s → Inv limit (abort signal s)
  unfolding abort
  abort-Inv signal s i = record {
    conserved = i.conserved;
    no_idle_slot = λ h. ground (arith, i.no_idle_slot h);
    waiters_live =
        All-map₂ (λ w. is_aborted s w.signal ≡ false) (λ w. not (nat_eq signal w.signal) ≡ true)
          (λ w. is_aborted (abort signal s) w.signal ≡ false) (λ w a b. ground arith)
          (filter (λ w. not (nat_eq signal w.signal)) s.waiters)
          (All-filter (λ w. is_aborted s w.signal ≡ false) (λ w. not (nat_eq signal w.signal))
            s.waiters i.waiters_live)
          (filter_holds (λ w. not (nat_eq signal w.signal)) s.waiters);
  }

  -- What holds while a slot is on its way from one holder to the next.
  hand_over-Inv :
      (ws : List Waiter) (s : Semaphore)
      → suc (s.available + length s.holders) ≡ limit
      → (ws ≢ [] → s.available ≡ 0)
      → All (λ w. is_aborted s w.signal ≡ false) ws
      → Inv limit (hand_over ws s)
  unfolding hand_over
  hand_over-Inv [] s c n l = record {
    conserved = omega arith;
    no_idle_slot = λ h. refl;
    waiters_live = tt;
  }
  hand_over-Inv (w ∷ ws) s c n l = rw (hand_over_live w ws s l.0) (record {
    conserved = omega arith;
    no_idle_slot = λ h. absurd (omega (arith, n (λ e. cc)));
    waiters_live = l.1;
  })

  pub release-Inv : (t : ℕ) (s : Semaphore) → Inv limit s → Inv limit (release t s)
  release-Inv t s i = go (without t s.holders) refl
    where
      go : (r : Option (List ℕ)) → without t s.holders ≡ r → Inv limit (release t s)
      go none e = rw (release_stale t s e) i
      go (some hs) e = rw (release_held t s e) (
          hand_over-Inv s.waiters (record s { holders = hs })
            (omega (arith, length-without t s.holders e, i.conserved))
            (λ n. ground (arith, i.no_idle_slot)) i.waiters_live)

  step-Inv : (e : Event) (s : Semaphore) → Inv limit s → Inv limit (step e s)
  unfolding step
  step-Inv (acquired signal) s i = acquire-Inv signal s i
  step-Inv (released t) s i = release-Inv t s i
  step-Inv (fired signal) s i = abort-Inv signal s i

  run-Inv : (es : List Event) (s : Semaphore) → Inv limit s → Inv limit (run es s)
  unfolding run
  run-Inv [] s i = i
  run-Inv (e ∷ es) s i = run-Inv es (step e s) (step-Inv e s i)

  -- Whatever acquires, releases (repeated ones included) and aborts a new semaphore sees, slots
  -- free and slots held add up to its limit, nobody waits while a slot is free, and nobody whose
  -- signal has fired waits.
  pub semaphore-Inv :
      (es : List Event) {s : Semaphore} → create limit ≡ some s → Inv limit (run es s)
  semaphore-Inv es {s} h = run-Inv es s (create_lem limit h)
