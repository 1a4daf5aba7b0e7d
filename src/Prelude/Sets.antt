-- ===== src/Prelude/Sets.antt =====
-- `Set<string>`: the members in the order of their insertion.
use Prim.Native.Nat.{◌+◌, ◌≤◌}
use Prim.Native.String.{String}
use mathlib.Core.Path.{◌≡◌, refl, subst}
use mathlib.Core.Bool.{Bool, true, false, not, ◌&&◌, ◌||◌}
use mathlib.Core.List.{List, [], ◌∷◌, ◌++◌}
use native.Mathlib.Omega.{arith}
use text.Mathlib.Text.{◌==◌}
use text.Mathlib.TextEquality.{eq_iff}
use mathlib.Core.Logic.{inl, inr, ◌↔◌}
use dark_kitchen_orchestrato.Prelude.Tests.{if◌then◌else◌, Bool-cases}
use dark_kitchen_orchestrato.Prelude.Lists.{length, length-append, All}

-- `s.has(k)`
unfoldable pub has : String → List String → Bool
has k [] = false
has k (x ∷ xs) = x == k || has k xs

-- `s.add(k)`
unfoldable pub add : String → List String → List String
unfolding has
add k xs = if has k xs then xs else xs ++ k ∷ []

-- `s.delete(k)`
unfoldable pub delete : String → List String → List String
delete k [] = []
delete k (x ∷ xs) = let rest = delete k xs in if x == k then rest else x ∷ rest

-- One `add` for each member of the array, in order.
unfoldable pub add_all : List String → List String → List String
unfolding add
add_all s [] = s
add_all s (x ∷ xs) = add_all (add x s) xs

-- `new Set(xs)`
unfoldable pub of_list : List String → List String
unfolding add_all
of_list xs = add_all [] xs

-- No member occurs twice.
abbrev pub Uniq : List String → Type 0
Uniq [] = Unit
Uniq (x ∷ xs) = (has x xs ≡ false) × Uniq xs

pub has-append : (k : String) (xs ys : List String) → has k (xs ++ ys) ≡ (has k xs || has k ys)
unfolding has
has-append k [] ys = refl
has-append k (x ∷ xs) ys = ground (arith, has-append k xs ys)

pub has-add : (j k : String) (xs : List String) → has j (add k xs) ≡ (k == j || has j xs)
unfolding add has
has-add j k xs = ground (arith, has-append j xs (k ∷ []), eq_iff k j)

pub has-delete :
    (j k : String) (xs : List String) → has j (delete k xs) ≡ (not (k == j) && has j xs)
unfolding has delete
has-delete j k [] = ground arith
has-delete j k (x ∷ xs) = ground (arith, has-delete j k xs, eq_iff x k, eq_iff x j, eq_iff k j)

pub has-add_all : (j : String) (s xs : List String) → has j (add_all s xs) ≡ (has j s || has j xs)
unfolding add_all has
has-add_all j s [] = ground arith
has-add_all j s (x ∷ xs) = ground (arith, has-add_all j (add x s) xs, has-add j x s)

pub has-of_list : (j : String) (xs : List String) → has j (of_list xs) ≡ has j xs
unfolding of_list has
has-of_list j xs = has-add_all j [] xs

pub length-add : (k : String) (xs : List String) → length (add k xs) ≤ length xs + 1
unfolding add
length-add k xs = ground (arith, length-append {0} xs (k ∷ []))

pub length-add_all : (s xs : List String) → length (add_all s xs) ≤ length s + length xs
unfolding add_all
length-add_all s [] = omega arith
length-add_all s (x ∷ xs) = omega (arith, length-add_all (add x s) xs, length-add x s)

-- None of `xs` is in `s`.
abbrev pub Fresh : List String → List String → Type 0
Fresh s xs = All (λ x. has x s ≡ false) xs

pub Fresh-add :
    (x : String) (s xs : List String) → (Fresh (add x s) xs) ↔ ((has x xs ≡ false) × Fresh s xs)
unfolding has
Fresh-add x s [] = (λ h. (refl, tt), λ h. tt)
Fresh-add x s (y ∷ ys) = (
  λ h. (
    ground (arith, has-add y x s, eq_iff x y, eq_iff y x, (Fresh-add x s ys).0 h.1),
    (ground (arith, has-add y x s), ((Fresh-add x s ys).0 h.1).1),
  ),
  λ h. (
    ground (arith, has-add y x s, eq_iff x y, eq_iff y x),
    (Fresh-add x s ys).1 (ground (arith, eq_iff x y), h.1.1),
  ),
)

length-add_fresh :
    (k : String) (s : List String) → has k s ≡ false → length (add k s) ≡ length s + 1
unfolding add
length-add_fresh k s h = ground (arith, length-append {0} s (k ∷ []))

length-add_old : (k : String) (s : List String) → has k s ≡ true → length (add k s) ≡ length s
unfolding add
length-add_old k s h = ground arith

-- The set is as long as the array only if nothing of the array was there before.
add_all_full :
    (s xs : List String) → length (add_all s xs) ≡ length s + length xs → Uniq xs × Fresh s xs
unfolding add_all
add_all_full s [] h = (tt, tt)
add_all_full s (x ∷ xs) h = elim (Bool-cases (has x s)) [
  | inl old ↦ absurd (omega (arith, length-add_old x s old, length-add_all (add x s) xs))
  | inr new ↦
      let ih = add_all_full (add x s) xs (omega (arith, length-add_fresh x s new)) in
      let rest = (Fresh-add x s xs).0 ih.1 in ((rest.0, ih.0), (new, rest.1))
]

length-add_all-Fresh :
    (s xs : List String) → Uniq xs → Fresh s xs → length (add_all s xs) ≡ length s + length xs
unfolding add_all
length-add_all-Fresh s [] u f = omega arith
length-add_all-Fresh s (x ∷ xs) u f = omega (
  arith,
  length-add_fresh x s f.0,
  length-add_all-Fresh (add x s) xs u.1 ((Fresh-add x s xs).1 (u.0, f.1)),
)

Fresh-nil : (xs : List String) → Fresh [] xs
unfolding has
Fresh-nil [] = tt
Fresh-nil (x ∷ xs) = (refl, Fresh-nil xs)

-- `new Set(xs).size === xs.length` tests that no member repeats.
pub length-of_list : (xs : List String) → (length (of_list xs) ≡ length xs) ↔ Uniq xs
unfolding of_list
length-of_list xs = (
  λ h. (add_all_full [] xs (omega arith)).0,
  λ u. omega (arith, length-add_all-Fresh [] xs u (Fresh-nil xs)),
)

pub All-of_has {κ} :
    (P : String → Type κ) (xs : List String) → ((x : String) → has x xs ≡ true → P x) → All P xs
unfolding has
All-of_has P [] h = tt
All-of_has P (x ∷ xs) h =
    (h x (ground (arith, eq_iff x x)), All-of_has P xs (λ y k. h y (ground arith)))

pub has_of_All {κ} :
    (P : String → Type κ) (xs : List String) (y : String) → All P xs → has y xs ≡ true → P y
unfolding has
has_of_All P [] y a h = absurd (cc)
has_of_All P (x ∷ xs) y a h = elim (Bool-cases (x == y)) [
  | inl e ↦ subst P ((eq_iff x y).0 e) a.0
  | inr e ↦ has_of_All P xs y a.1 (ground arith)
]
