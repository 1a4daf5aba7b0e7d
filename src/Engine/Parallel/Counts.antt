-- ===== src/Engine/Parallel/Counts.antt =====
-- How many workers `Promise.all` waits for, against what it came to.
use dark_kitchen_orchestrato.Prelude.{
  ℕ, zero, suc, ◌-◌, ◌<◌, ◌≡◌, refl, Option, none, some, or_else, List, arith,
}
use dark_kitchen_orchestrato.Engine.Retry.{Outcome, returned, threw, cancelled, misconfigured}
use dark_kitchen_orchestrato.Engine.Parallel.{all_of}

-- No worker has thrown.
abbrev pub IsCalm : {E R : Type 0} → Option (Outcome E R) → Type 0
IsCalm none = Unit
IsCalm (some (returned rs)) = Unit
IsCalm (some o) = ⊥

module _ {E A : Type 0} where
  -- Where `active` workers have not ended.
  abbrev pub Counted : ℕ → ℕ → List (Option A) → Option (Outcome E (List (Option A))) → Type 0
  Counted pending active results none = (pending ≡ active) × (0 < pending)
  Counted pending active results (some (returned rs)) =
      (pending ≡ 0) × (active ≡ 0) × (rs ≡ results)
  Counted pending active results (some o) = active < pending

  pub Counted-finish :
      (p q a : ℕ) (rs : List (Option A)) (o : Option (Outcome E (List (Option A))))
      → q ≡ p - 1
      → Counted p (suc a) rs o
      → Counted q a rs (elim o [ some x ↦ some x | none ↦ all_of q rs ])
  Counted-finish p zero a rs none e h = (refl, omega arith, refl)
  Counted-finish p (suc q) a rs none e h = omega arith
  Counted-finish p q a rs (some (returned x)) e h = absurd (omega (arith, h.1))
  Counted-finish p q a rs (some (threw x)) e h = omega arith
  Counted-finish p q a rs (some cancelled) e h = omega arith
  Counted-finish p q a rs (some misconfigured) e h = omega arith

  pub Counted-reject :
      (p a : ℕ) (rs : List (Option A)) (x : Outcome E (List (Option A)))
      (o : Option (Outcome E (List (Option A))))
      → ¬ IsCalm (some x)
      → Counted p (suc a) rs o
      → Counted p a rs (some (or_else o x))
  Counted-reject p a rs (returned y) none n h = absurd (n tt)
  Counted-reject p a rs (threw e) none n h = omega arith
  Counted-reject p a rs cancelled none n h = omega arith
  Counted-reject p a rs misconfigured none n h = omega arith
  Counted-reject p a rs x (some (returned y)) n h = absurd (omega (arith, h.1))
  Counted-reject p a rs x (some (threw e)) n h = omega arith
  Counted-reject p a rs x (some cancelled) n h = omega arith
  Counted-reject p a rs x (some misconfigured) n h = omega arith

  -- While a worker is at work the results may change.
  pub Counted-results :
      (p a : ℕ) (rs ts : List (Option A)) (o : Option (Outcome E (List (Option A))))
      → Counted p (suc a) rs o
      → Counted p (suc a) ts o × (0 < p)
  Counted-results p a rs ts none h = (h, omega arith)
  Counted-results p a rs ts (some (returned x)) h = absurd (omega (arith, h.1))
  Counted-results p a rs ts (some (threw e)) h = (h, omega arith)
  Counted-results p a rs ts (some cancelled) h = (h, omega arith)
  Counted-results p a rs ts (some misconfigured) h = (h, omega arith)

  pub finish-IsCalm :
      (p : ℕ) (rs : List (Option A)) (o : Option (Outcome E (List (Option A))))
      → IsCalm (elim o as (λ _. Option (Outcome E (List (Option A)))) [
        | some x ↦ some x
        | none ↦ all_of p rs
      ])
      → IsCalm o
  finish-IsCalm p rs none h = tt
  finish-IsCalm p rs (some x) h = h

  -- After a worker that threw somebody has.
  pub reject-IsCalm :
      (p a : ℕ) (rs : List (Option A)) (x : Outcome E (List (Option A)))
      (o : Option (Outcome E (List (Option A))))
      → ¬ IsCalm (some x)
      → Counted p (suc a) rs o
      → ¬ IsCalm (some (or_else o x))
  reject-IsCalm p a rs x none n h c = n c
  reject-IsCalm p a rs x (some (returned y)) n h c = omega (arith, h.1)
  reject-IsCalm p a rs x (some (threw e)) n h c = c
  reject-IsCalm p a rs x (some cancelled) n h c = c
  reject-IsCalm p a rs x (some misconfigured) n h c = c
