-- ===== src/Engine/Parallel/Running.antt =====
-- Membership in the list of the factories that are awaited.
use dark_kitchen_orchestrato.Prelude.{
  ℕ, ◌≡◌, ◌≢◌, inl, inr, true, some, Option-cases, List, [], ◌∷◌, ◌++◌, any, length, nat_eq, arith,
}
use dark_kitchen_orchestrato.Engine.Semaphore.{without}

-- The other members stay when one is taken out.
pub any-without :
    (i j : ℕ) (xs rest : List ℕ)
    → without i xs ≡ some rest
    → i ≢ j
    → any (nat_eq j) xs ≡ true
    → any (nat_eq j) rest ≡ true
any-without i j [] rest w n h = absurd (cc)
any-without i j (x ∷ xs) rest w n h = elim (Option-cases (without i xs)) [
  | inl q ↦ ground arith
  | inr (r, q) ↦ ground (arith, any-without i j xs r q n)
]

pub any_of-without :
    (i j : ℕ) (xs rest : List ℕ)
    → without i xs ≡ some rest
    → any (nat_eq j) rest ≡ true
    → any (nat_eq j) xs ≡ true
any_of-without i j [] rest w h = absurd (cc)
any_of-without i j (x ∷ xs) rest w h = elim (Option-cases (without i xs)) [
  | inl q ↦ ground arith
  | inr (r, q) ↦ ground (arith, any_of-without i j xs r q)
]

pub any-removed : (i : ℕ) (xs rest : List ℕ) → without i xs ≡ some rest → any (nat_eq i) xs ≡ true
any-removed i [] rest w = absurd (cc)
any-removed i (x ∷ xs) rest w = elim (Option-cases (without i xs)) [
  | inl q ↦ ground arith
  | inr (r, q) ↦ ground (arith, any-removed i xs r q)
]

pub any-snoc :
    (j : ℕ) (xs : List ℕ) (i : ℕ) → any (nat_eq j) xs ≡ true → any (nat_eq j) (xs ++ i ∷ []) ≡ true
any-snoc j [] i h = absurd (cc)
any-snoc j (x ∷ xs) i h = ground (arith, any-snoc j xs i)

pub any-last : (xs : List ℕ) (i : ℕ) → any (nat_eq i) (xs ++ i ∷ []) ≡ true
any-last [] i = ground arith
any-last (x ∷ xs) i = ground (arith, any-last xs i)

pub any_of-snoc :
    (j : ℕ) (xs : List ℕ) (i : ℕ)
    → any (nat_eq j) (xs ++ i ∷ []) ≡ true
    → i ≢ j
    → any (nat_eq j) xs ≡ true
any_of-snoc j [] i h n = absurd (ground arith)
any_of-snoc j (x ∷ xs) i h n = ground (arith, any_of-snoc j xs i)

pub not-any_of_empty : (j : ℕ) (xs : List ℕ) → length xs ≡ 0 → ¬ (any (nat_eq j) xs ≡ true)
not-any_of_empty j [] e h = cc
not-any_of_empty j (x ∷ xs) e h = omega arith
