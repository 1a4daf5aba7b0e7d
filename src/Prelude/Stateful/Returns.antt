-- ===== src/Prelude/Stateful/Returns.antt =====
-- What is known of code that returned a value and left a state.
use mathlib.Core.Path.{◌≡◌, refl, ap}
use mathlib.Core.Logic.{◌⊎◌, inl, inr}
use mathlib.Core.Bool.{Bool, true, false}
use mathlib.Core.Option.{Option, none, some}
use dark_kitchen_orchestrato.Prelude.Tests.{or_else}
use dark_kitchen_orchestrato.Prelude.Results.{Result, ok, err}
use dark_kitchen_orchestrato.Prelude.Stateful.{
  Stateful, pure, throw, continue, branch, ◌>>=◌, ◌>>◌, attempt, modify, ask, expect, require,
}

abbrev value_of : {E A : Type 0} → Result E A → Option A
value_of (ok a) = some a
value_of (err e) = none

module _ {E S : Type 0} where
  -- From `s` the code returns `a` and leaves `t`.
  abbrev pub Returns : {A : Type 0} → Stateful E S A → S → A → S → Type 0
  Returns m s a t = m s ≡ (ok a, t)

  same_value :
      {A : Type 0} (a b : A) (s t : S) → ◌≡◌ {A = Result E A × S} (ok a, s) (ok b, t) → a ≡ b
  same_value a b s t h = ap (λ r. or_else (value_of r.0) a) h

  pub pure-Returns :
      {A : Type 0} (a : A) (s : S) {b : A} {t : S} → Returns (pure a) s b t → (a ≡ b) × (s ≡ t)
  unfolding pure
  pure-Returns a s h = (same_value _ _ _ _ h, ap (λ r. r.1) h)

  pub throw-Returns : {A : Type 0} (e : E) (s : S) {b : A} {t : S} → Returns (throw e) s b t → ⊥
  unfolding throw
  throw-Returns e s h = absurd (cc)

  pub ask-Returns :
      {A : Type 0} (f : S → A) (s : S) {b : A} {t : S} → Returns (ask f) s b t → (f s ≡ b) × (s ≡ t)
  unfolding ask
  ask-Returns f s h = (same_value _ _ _ _ h, ap (λ r. r.1) h)

  pub modify-Returns :
      (f : S → S) (s : S) {b : Unit {0}} {t : S} → Returns (modify f) s b t → f s ≡ t
  unfolding modify
  modify-Returns f s h = ap (λ r. r.1) h

  pub expect-Returns :
      {A : Type 0} (e : E) (o : Option A) (s : S) {b : A} {t : S}
      → Returns (expect e o) s b t
      → (o ≡ some b) × (s ≡ t)
  unfolding expect
  expect-Returns e none s h = absurd (throw-Returns e s h)
  expect-Returns e (some a) s h = let k = pure-Returns a s h in (ap some k.0, k.1)

  pub require-Returns :
      (b : Bool) (e : E) (s : S) {u : Unit {0}} {t : S}
      → Returns (require b e) s u t
      → (b ≡ true) × (s ≡ t)
  unfolding require
  require-Returns true e s h = (refl, (pure-Returns tt s h).1)
  require-Returns false e s h = absurd (throw-Returns e s h)

  continue-Returns :
      {A B : Type 0} (f : A → Stateful E S B) (r : Result E A × S) {b : B} {t : S}
      → continue f r ≡ (ok b, t)
      → (a : A) × (u : S) × (r ≡ (ok a, u)) × Returns (f a) u b t
  continue-Returns f (ok a, u) h = (a, u, refl, h)
  continue-Returns f (err e, u) h = absurd (cc)

  pub bind-Returns :
      {A B : Type 0} (m : Stateful E S A) (f : A → Stateful E S B) (s : S) {b : B} {t : S}
      → Returns (m >>= f) s b t
      → (a : A) × (u : S) × Returns m s a u × Returns (f a) u b t
  unfolding ◌>>=◌
  bind-Returns m f s h = continue-Returns f (m s) h

  pub then-Returns :
      {A B : Type 0} (m : Stateful E S A) (n : Stateful E S B) (s : S) {b : B} {t : S}
      → Returns (m >> n) s b t
      → (a : A) × (u : S) × Returns m s a u × Returns n u b t
  unfolding ◌>>◌
  then-Returns m n s h = bind-Returns m (λ ignored. n) s h

  branch-Returns :
      {A B : Type 0} (f : A → Stateful E S B) (g : E → Stateful E S B) (r : Result E A × S) {b : B}
      {t : S}
      → branch f g r ≡ (ok b, t)
      → ((a : A) × (u : S) × (r ≡ (ok a, u)) × Returns (f a) u b t)
        ⊎ ((e : E) × (u : S) × (r ≡ (err e, u)) × Returns (g e) u b t)
  branch-Returns f g (ok a, u) h = inl (a, u, refl, h)
  branch-Returns f g (err e, u) h = inr (e, u, refl, h)

  pub attempt-Returns :
      {A B : Type 0} (m : Stateful E S A) (f : A → Stateful E S B) (g : E → Stateful E S B) (s : S)
      {b : B} {t : S}
      → Returns (attempt m f g) s b t
      → ((a : A) × (u : S) × Returns m s a u × Returns (f a) u b t)
        ⊎ ((e : E) × (u : S) × (m s ≡ (err e, u)) × Returns (g e) u b t)
  unfolding attempt
  attempt-Returns m f g s h = branch-Returns f g (m s) h
