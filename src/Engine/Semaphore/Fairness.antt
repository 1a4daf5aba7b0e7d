-- ===== src/Engine/Semaphore/Fairness.antt =====
-- Waiters are served in the order of their arrival.
use dark_kitchen_orchestrato.Prelude.{
  ℕ, ◌≤◌, ◌≡◌, ◌≢◌, refl, ap, ◌∙◌, none, false, Option-cases, inl, inr, List, [], ◌∷◌, arith,
  length, take, drop, All,
}
use dark_kitchen_orchestrato.Engine.Semaphore.{
  Waiter, Semaphore, without, release, tickets, hand_over, is_aborted,
}
use dark_kitchen_orchestrato.Engine.Semaphore.Invariant.{
  Inv, release_held, hand_over_live, release-Inv,
}

-- A row of calls of release functions.
abbrev pub release_all : List ℕ → Semaphore → Semaphore
release_all [] s = s
release_all (t ∷ ts) s = release_all ts (release t s)

-- Each of the calls is the first one of its ticket.
abbrev pub EachHeld : List ℕ → Semaphore → Type 0
EachHeld [] s = Unit
EachHeld (t ∷ ts) s = (without t s.holders ≢ none) × EachHeld ts (release t s)

abbrev newest : List ℕ → ℕ
newest [] = 0
newest (h ∷ hs) = h

-- The ticket that holds a slot most recently, after each of the calls.
abbrev pub granted : List ℕ → Semaphore → List ℕ
granted [] s = []
granted (t ∷ ts) s = newest (release t s).holders ∷ granted ts (release t s)

module _ (limit : ℕ) where
  -- One call hands its slot to the longest waiting.
  release_first :
      (t : ℕ) (s : Semaphore) (w : Waiter) (ws : List Waiter)
      → Inv limit s
      → without t s.holders ≢ none
      → s.waiters ≡ w ∷ ws
      → (hs : List ℕ) × (release t s ≡ record s { waiters = ws; holders = w.ticket ∷ hs })
  release_first t s w ws i h e = elim (Option-cases (without t s.holders)) [
    | inl n ↦ absurd (h n)
    | inr (hs, k) ↦ (
      hs,
      release_held t s k
          ∙ ap (λ (l : List Waiter). hand_over l (record s { holders = hs })) e
          ∙ hand_over_live w ws (record s { holders = hs }) (head_live (rw e at i.waiters_live)),
    )
  ]
    where
      head_live : All (λ v. is_aborted s v.signal ≡ false) (w ∷ ws) → is_aborted s w.signal ≡ false
      head_live a = a.0

  serves :
      (ts : List ℕ) (s : Semaphore) (ws : List Waiter)
      → Inv limit s
      → EachHeld ts s
      → s.waiters ≡ ws
      → length ts ≤ length ws
      → (granted ts s ≡ tickets (take (length ts) ws))
        × ((release_all ts s).waiters ≡ drop (length ts) ws)
  serves [] s ws i h e n = (refl, e)
  serves (t ∷ ts) s [] i h e n = absurd (omega arith)
  serves (t ∷ ts) s (w ∷ ws) i h e n =
      let (hs, q) = release_first t s w ws i h.0 e in
      let (g, r) =
        serves ts (release t s) ws (release-Inv limit t s i) h.1
          (ap (λ (x : Semaphore). x.waiters) q) (omega arith) in
      (cc (g, ap (λ (x : Semaphore). newest x.holders) q), r)

  -- From any state of a semaphore in use, `k` first calls of release functions, `k` not more than
  -- the waiters, hand their slots to the first `k` waiters, in the order of their arrival, and
  -- leave the others waiting in theirs.
  pub release_all-serves :
      (ts : List ℕ) (s : Semaphore)
      → Inv limit s
      → EachHeld ts s
      → length ts ≤ length s.waiters
      → (granted ts s ≡ tickets (take (length ts) s.waiters))
        × ((release_all ts s).waiters ≡ drop (length ts) s.waiters)
  release_all-serves ts s i h n = serves ts s s.waiters i h refl n
