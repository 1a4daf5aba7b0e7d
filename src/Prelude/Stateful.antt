-- ===== src/Prelude/Stateful.antt =====
-- Code that may throw and changes a state, as a function of the state, and rules for what it
-- leaves behind.
pub mod Returns
use mathlib.Core.Bool.{Bool, true, false}
use mathlib.Core.Option.{Option, none, some}
use mathlib.Core.List.{List, [], ◌∷◌}
use dark_kitchen_orchestrato.Prelude.Tests.{if◌then◌else◌}
use dark_kitchen_orchestrato.Prelude.Results.{Result, ok, err}

-- What is thrown leaves the changes that were made before.
abbrev pub Stateful : Type 0 → Type 0 → Type 0 → Type 0
Stateful E S A = S → Result E A × S

module _ {E S : Type 0} where
  unfoldable pub pure : {A : Type 0} → A → Stateful E S A
  pure a s = (ok a, s)

  unfoldable pub throw : {A : Type 0} → E → Stateful E S A
  throw e s = (err e, s)

  -- What follows a value; an error is passed on.
  abbrev pub continue : {A B : Type 0} → (A → Stateful E S B) → Result E A × S → Result E B × S
  continue f (ok a, s) = f a s
  continue f (err e, s) = (err e, s)

  -- `catch`
  abbrev pub recover : {A : Type 0} → (E → Stateful E S A) → Result E A × S → Result E A × S
  recover f (ok a, s) = (ok a, s)
  recover f (err e, s) = f e s

  -- Two ways on, after a value and after an error.
  abbrev pub branch :
      {A B : Type 0} → (A → Stateful E S B) → (E → Stateful E S B) → Result E A × S → Result E B × S
  branch f g (ok a, s) = f a s
  branch f g (err e, s) = g e s

infixl 5 ◌>>=◌ ◌>>◌
unfoldable pub ◌>>=◌ : {E S A B : Type 0} → Stateful E S A → (A → Stateful E S B) → Stateful E S B
◌>>=◌ m f s = continue f (m s)

unfoldable pub ◌>>◌ : {E S A B : Type 0} → Stateful E S A → Stateful E S B → Stateful E S B
unfolding ◌>>=◌ pure throw
m >> k = m >>= λ ignored. k

module _ {E S : Type 0} where
  unfoldable pub catch : {A : Type 0} → Stateful E S A → (E → Stateful E S A) → Stateful E S A
  catch m f s = recover f (m s)

  unfoldable pub attempt :
      {A B : Type 0} → Stateful E S A → (A → Stateful E S B) → (E → Stateful E S B) → Stateful E S B
  attempt m f g s = branch f g (m s)

  unfoldable pub modify : (S → S) → Stateful E S (Unit {0})
  modify f s = (ok tt, f s)

  unfoldable pub ask : {A : Type 0} → (S → A) → Stateful E S A
  ask f s = (ok (f s), s)

  -- The value, or the error.
  unfoldable pub expect : {A : Type 0} → E → Option A → Stateful E S A
  unfolding ◌>>=◌ pure throw
  expect e none = throw e
  expect e (some a) = pure a

  -- `if (!test) throw e`
  unfoldable pub require : Bool → E → Stateful E S (Unit {0})
  unfolding ◌>>=◌ pure throw
  require b e = if b then pure tt else throw e

  unfoldable pub each :
      {A : Type 0} → (A → Stateful E S (Unit {0})) → List A → Stateful E S (Unit {0})
  unfolding ◌>>=◌ pure throw
  each f [] = pure tt
  each f (a ∷ xs) = f a >> each f xs

  unfoldable pub collect : {A B : Type 0} → (A → Stateful E S B) → List A → Stateful E S (List B)
  unfolding ◌>>=◌ pure throw
  collect f [] = pure []
  collect f (a ∷ xs) = f a >>= λ b. (collect f xs >>= λ bs. pure (b ∷ bs))

  -- From a state that is `P` to one that is, on every way out.
  pub record Keeps {A : Type 0} (P : S → Type 0) (m : Stateful E S A) : Type 0 where
    pub run : (s : S) → P s → P (m s).1

module _ {E S : Type 0} {P : S → Type 0} where
  continue-keeps :
      {A B : Type 0} (f : A → Stateful E S B) (r : Result E A × S)
      → P r.1
      → ((a : A) → Keeps P (f a))
      → P (continue f r).1
  continue-keeps f (ok a, s) h k = (k a).run s h
  continue-keeps f (err e, s) h k = h

  recover-keeps :
      {A : Type 0} (f : E → Stateful E S A) (r : Result E A × S)
      → P r.1
      → ((e : E) → Keeps P (f e))
      → P (recover f r).1
  recover-keeps f (ok a, s) h k = h
  recover-keeps f (err e, s) h k = (k e).run s h

  pub bind-Keeps :
      {A B : Type 0} {m : Stateful E S A} {f : A → Stateful E S B}
      → Keeps P m
      → ((a : A) → Keeps P (f a))
      → Keeps P (m >>= f)
  unfolding ◌>>=◌
  bind-Keeps {m = m} {f = f} k l = record { run = λ s h. continue-keeps f (m s) (k.run s h) l }

  pub catch-Keeps :
      {A : Type 0} {m : Stateful E S A} {f : E → Stateful E S A}
      → Keeps P m
      → ((e : E) → Keeps P (f e))
      → Keeps P (catch m f)
  unfolding catch
  catch-Keeps {m = m} {f = f} k l = record { run = λ s h. recover-keeps f (m s) (k.run s h) l }

  branch-keeps :
      {A B : Type 0} (f : A → Stateful E S B) (g : E → Stateful E S B) (r : Result E A × S)
      → P r.1
      → ((a : A) → Keeps P (f a))
      → ((e : E) → Keeps P (g e))
      → P (branch f g r).1
  branch-keeps f g (ok a, s) h k l = (k a).run s h
  branch-keeps f g (err e, s) h k l = (l e).run s h

  pub attempt-Keeps :
      {A B : Type 0} {m : Stateful E S A} {f : A → Stateful E S B} {g : E → Stateful E S B}
      → Keeps P m
      → ((a : A) → Keeps P (f a))
      → ((e : E) → Keeps P (g e))
      → Keeps P (attempt m f g)
  unfolding attempt
  attempt-Keeps {m = m} {f = f} {g = g} j k l = record {
    run = λ s h. branch-keeps f g (m s) (j.run s h) k l;
  }

  pub pure-Keeps : {A : Type 0} (a : A) → Keeps P (pure {E = E} {S = S} a)
  unfolding pure
  pure-Keeps a = record { run = λ s h. h }

  pub throw-Keeps : {A : Type 0} (e : E) → Keeps P (throw {E = E} {S = S} {A = A} e)
  unfolding throw
  throw-Keeps e = record { run = λ s h. h }

  pub ask-Keeps : {A : Type 0} (f : S → A) → Keeps P (ask {E = E} f)
  unfolding ask
  ask-Keeps f = record { run = λ s h. h }

  pub modify-Keeps : (f : S → S) → ((s : S) → P s → P (f s)) → Keeps P (modify {E = E} f)
  unfolding modify
  modify-Keeps f k = record { run = k }

  pub expect-Keeps : {A : Type 0} (e : E) (o : Option A) → Keeps P (expect {E = E} {S = S} e o)
  unfolding expect
  expect-Keeps e none = throw-Keeps e
  expect-Keeps e (some a) = pure-Keeps a

  pub require-Keeps : (b : Bool) (e : E) → Keeps P (require {E = E} {S = S} b e)
  unfolding require
  require-Keeps true e = pure-Keeps tt
  require-Keeps false e = throw-Keeps e

  pub then-Keeps :
      {A B : Type 0} {m : Stateful E S A} {n : Stateful E S B}
      → Keeps P m
      → Keeps P n
      → Keeps P (m >> n)
  unfolding ◌>>◌
  then-Keeps k l = bind-Keeps k (λ ignored. l)

  pub if-Keeps :
      {A : Type 0} {m n : Stateful E S A} (b : Bool)
      → Keeps P m
      → Keeps P n
      → Keeps P (if b then m else n)
  if-Keeps true k l = k
  if-Keeps false k l = l

  pub each-Keeps :
      {A : Type 0} {f : A → Stateful E S (Unit {0})}
      → ((a : A) → Keeps P (f a))
      → (xs : List A) → Keeps P (each f xs)
  unfolding each
  each-Keeps k [] = pure-Keeps tt
  each-Keeps k (a ∷ xs) = then-Keeps (k a) (each-Keeps k xs)

  pub collect-Keeps :
      {A B : Type 0} {f : A → Stateful E S B}
      → ((a : A) → Keeps P (f a))
      → (xs : List A) → Keeps P (collect f xs)
  unfolding collect
  collect-Keeps k [] = pure-Keeps []
  collect-Keeps k (a ∷ xs) =
      bind-Keeps (k a) (λ b. bind-Keeps (collect-Keeps k xs) (λ bs. pure-Keeps (b ∷ bs)))
