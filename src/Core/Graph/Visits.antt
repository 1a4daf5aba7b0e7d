-- ===== src/Core/Graph/Visits.antt =====
-- One visit of the depth-first search, as equations, and what measures how deep it may still go.
use dark_kitchen_orchestrato.Prelude.{
  ℕ, suc, ◌+◌, ◌≤◌, ◌<◌, String, ◌≡◌, refl, true, false, List, [], ◌∷◌, ok, err, ◌>>=◌, arith,
  eq_iff, length, if◌then◌else◌,
}
use dark_kitchen_orchestrato.Prelude.Sets
use dark_kitchen_orchestrato.Prelude.Sets.{has-add, has-delete, has_of_All, All-of_has}
use dark_kitchen_orchestrato.Core.Ids.{cyclic}
use dark_kitchen_orchestrato.Core.Graph.{Marks, visit, visit_each}

-- How many of `ids` are not being visited.
pub free : List String → List String → ℕ
free s [] = 0
free s (x ∷ xs) = (if Sets.has x s then 0 else 1) + free s xs

pub free-le : (s xs : List String) → free s xs ≤ length xs
unfolding free
free-le s [] = omega arith
free-le s (x ∷ xs) = ground (arith, free-le s xs)

pub free-add_le : (t : String) (s xs : List String) → free (Sets.add t s) xs ≤ free s xs
unfolding free
free-add_le t s [] = omega arith
free-add_le t s (x ∷ xs) = ground (arith, free-add_le t s xs, has-add x t s)

pub free-add :
    (t : String) (s xs : List String)
    → Sets.has t s ≡ false
    → Sets.has t xs ≡ true
    → free (Sets.add t s) xs < free s xs
unfolding free Sets.has
free-add t s [] h k = cc
free-add t s (x ∷ xs) h k =
    ground (arith, free-add t s xs h, free-add_le t s xs, has-add x t s, eq_iff x t, eq_iff t x)

pub free-same :
    (s s' xs : List String) → ((v : String) → Sets.has v s' ≡ Sets.has v s) → free s' xs ≡ free s xs
unfolding free
free-same s s' [] h = refl
free-same s s' (x ∷ xs) h = ground (arith, free-same s s' xs h, h x)

-- The three ways of a visit, as equations.
module _ (n : ℕ) (edges : String → List String) (t : String) (s : Marks) where
  pub visit_cyclic : Sets.has t s.visiting ≡ true → visit (suc n) edges t s ≡ err cyclic
  unfolding visit
  visit_cyclic h = ground arith

  pub visit_seen :
      Sets.has t s.visiting ≡ false → Sets.has t s.visited ≡ true → visit (suc n) edges t s ≡ ok s
  unfolding visit
  visit_seen h k = ground arith

  pub visit_new :
      Sets.has t s.visiting ≡ false
      → Sets.has t s.visited ≡ false
      → visit (suc n) edges t s ≡ (
          visit_each (visit n edges) (edges t) (record s { visiting = Sets.add t s.visiting })
          >>= λ u.
              ok (record { visiting = Sets.delete t u.visiting; visited = Sets.add t u.visited }))
  unfolding visit
  visit_new h k = ground arith
