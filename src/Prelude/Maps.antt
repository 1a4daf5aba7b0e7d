-- ===== src/Prelude/Maps.antt =====
-- `Map<string, V>`: the entries in the order of their insertion; a `set` at a present key keeps
-- its place.
use Prim.Native.Nat.{◌+◌, ◌≤◌}
use Prim.Native.String.{String}
use mathlib.Core.Path.{◌≡◌, refl}
use mathlib.Core.Bool.{Bool, false, not, ◌&&◌, ◌||◌}
use mathlib.Core.Logic.{◌↔◌}
use mathlib.Core.Option.{Option, none, some}
use mathlib.Core.List.{List, [], ◌∷◌}
use native.Mathlib.Omega.{arith}
use text.Mathlib.Text.{◌==◌}
use text.Mathlib.TextEquality.{eq_iff}
use dark_kitchen_orchestrato.Prelude.Tests.{if◌then◌else◌, is_some}
use dark_kitchen_orchestrato.Prelude.Lists.{length, All}
use dark_kitchen_orchestrato.Prelude.Sets

module _ {ℓ} {V : Type ℓ} where
  -- `m.get(k)`
  unfoldable pub get : String → List (String × V) → Option V
  get k [] = none
  get k ((j, v) ∷ m) = if j == k then some v else get k m

  -- `m.set(k, v)`
  unfoldable pub put : String → V → List (String × V) → List (String × V)
  put k v [] = (k, v) ∷ []
  put k v ((j, w) ∷ m) = if j == k then (k, v) ∷ m else (j, w) ∷ put k v m

  -- `m.delete(k)`
  unfoldable pub delete : String → List (String × V) → List (String × V)
  delete k [] = []
  delete k ((j, w) ∷ m) = let rest = delete k m in if j == k then rest else (j, w) ∷ rest

  -- `m.keys()`
  abbrev pub keys : List (String × V) → List String
  keys [] = []
  keys ((j, w) ∷ m) = j ∷ keys m

  -- `m.values()`
  abbrev pub values : List (String × V) → List V
  values [] = []
  values ((j, w) ∷ m) = w ∷ values m

  -- `m.has(k)`
  abbrev pub has : String → List (String × V) → Bool
  has k m = is_some (get k m)

module _ {ℓ} {V : Type ℓ} where
  pub get-put :
      (k j : String) (v : V) (m : List (String × V))
      → get j (put k v m) ≡ (if k == j then some v else get j m)
  unfolding get put
  get-put k j v [] = refl
  get-put k j v ((i, w) ∷ m) = ground (arith, eq_iff k j, eq_iff i k, eq_iff i j, get-put k j v m)

  pub get-delete :
      (k j : String) (m : List (String × V))
      → get j (delete k m) ≡ (if k == j then none else get j m)
  unfolding get delete
  get-delete k j [] = ground arith
  get-delete k j ((i, w) ∷ m) = ground (arith, eq_iff k j, eq_iff i k, eq_iff i j, get-delete k j m)

  pub length-put : (k : String) (v : V) (m : List (String × V)) → length (put k v m) ≤ length m + 1
  unfolding put
  length-put k v [] = omega arith
  length-put k v ((i, w) ∷ m) = ground (arith, length-put k v m)

  pub length-delete : (k : String) (m : List (String × V)) → length (delete k m) ≤ length m
  unfolding delete
  length-delete k [] = omega arith
  length-delete k ((i, w) ∷ m) = ground (arith, length-delete k m)

  -- A key that is there is in `keys`.
  pub has-keys : (k : String) (m : List (String × V)) → Sets.has k (keys m) ≡ has k m
  unfolding get Sets.has
  has-keys k [] = refl
  has-keys k ((i, w) ∷ m) = ground (arith, has-keys k m)

module _ {ℓ} {V : Type ℓ} where
  pub has-put :
      (k j : String) (v : V) (m : List (String × V)) → has j (put k v m) ≡ (k == j || has j m)
  has-put k j v m = ground (arith, get-put k j v m)

  pub has-delete :
      (k j : String) (m : List (String × V)) → has j (delete k m) ≡ (not (k == j) && has j m)
  has-delete k j m = ground (arith, get-delete k j m)

  -- None of `xs` is a key.
  abbrev pub Fresh : List (String × V) → List String → Type 0
  Fresh m xs = All (λ x. has x m ≡ false) xs

  pub Fresh-put :
      (k : String) (v : V) (m : List (String × V)) (xs : List String)
      → Fresh (put k v m) xs ↔ ((Sets.has k xs ≡ false) × Fresh m xs)
  unfolding Sets.has
  Fresh-put k v m [] = (λ h. (refl, tt), λ h. tt)
  Fresh-put k v m (x ∷ xs) = (
    λ h. (
      ground (arith, has-put k x v m, eq_iff x k, eq_iff k x, (Fresh-put k v m xs).0 h.1),
      (ground (arith, has-put k x v m), ((Fresh-put k v m xs).0 h.1).1),
    ),
    λ h. (
      ground (arith, has-put k x v m, eq_iff x k, eq_iff k x),
      (Fresh-put k v m xs).1 (ground (arith, eq_iff x k), h.1.1),
    ),
  )
