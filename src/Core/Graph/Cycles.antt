-- ===== src/Core/Graph/Cycles.antt =====
-- The search for cycles in validateTaskGraph of packages/core/src/domain.ts from all tasks.
use dark_kitchen_orchestrato.Prelude.{
  suc, String, ◌≡◌, refl, true, List, [], Result, ok, err, arith, length,
}
use dark_kitchen_orchestrato.Prelude.Sets
use dark_kitchen_orchestrato.Prelude.Sets.{has-add, has-delete, has_of_All, All-of_has}
use dark_kitchen_orchestrato.Core.Ids.{DomainError, cyclic}
use dark_kitchen_orchestrato.Core.Graph.{Marks, visit, find_cycle}
use dark_kitchen_orchestrato.Core.Graph.Paths.{Path₁, edge, step}
use dark_kitchen_orchestrato.Core.Graph.Visits.{free-le}
use dark_kitchen_orchestrato.Core.Graph.Search.{
  Outcome, passed, refused, Inv, Pre, Good, Visited, visit-Good, visit_each-Good,
}

module _ (ids : List String) (edges : String → List String)
    (inside : (a b : String) → Sets.has b (edges a) ≡ true → Sets.has b ids ≡ true) where
  abbrev unmarked : Marks
  unmarked = record { visiting = []; visited = [] }

  unmarked-Inv : Inv edges ids unmarked
  unfolding Sets.has
  unmarked-Inv = record {
    apart = λ v h. refl;
    closed = λ v w h k. absurd (cc);
    acyclic = λ v h k. cc h;
  }

  find_cycle-Good : Good edges ids (Visited edges ids unmarked ids) (find_cycle ids edges)
  unfolding find_cycle
  find_cycle-Good =
      visit_each-Good edges ids (suc (length ids)) (visit (suc (length ids)) edges)
        (visit-Good edges ids inside (suc (length ids))) ids unmarked unmarked-Inv
        (All-of_has (λ t. Pre edges ids (suc (length ids)) t unmarked) ids
          λ t h. record {
            inv = unmarked-Inv;
            stack = λ v k. unfold Sets.has in absurd (cc);
            known = h;
            room = omega (arith, free-le [] ids);
          })

  Path₁-inside : {a b : String} → Path₁ edges a b → Sets.has b ids ≡ true
  Path₁-inside {a = a} {b = b} (edge h) = inside a b h
  Path₁-inside (step h p) = Path₁-inside p

  Outcome_of_Good :
      (r : Result DomainError Marks)
      → Good edges ids (Visited edges ids unmarked ids) r
      → Outcome edges r
  Outcome_of_Good (ok s) g = passed s refl λ t p.
      (g.0).inv.acyclic t (has_of_All (λ v. Sets.has v s.visited ≡ true) ids t g.1 (Path₁-inside p))
        p
  Outcome_of_Good (err cyclic) g = refused refl g
  Outcome_of_Good (err _) g = absurd g

  -- The search passes an acyclic graph, refuses one with a cycle, and does nothing else.
  pub find_cycle-Outcome : Outcome edges (find_cycle ids edges)
  find_cycle-Outcome = Outcome_of_Good (find_cycle ids edges) find_cycle-Good
