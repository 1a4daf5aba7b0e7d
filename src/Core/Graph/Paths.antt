-- ===== src/Core/Graph/Paths.antt =====
-- The blocking edges as a relation, and the paths along them.
use dark_kitchen_orchestrato.Prelude.{String, ◌≡◌, true, List}
use dark_kitchen_orchestrato.Prelude.Sets

-- A path of one edge or more.
pub data Path₁ (edges : String → List String) : String → String → Type 0 where
  edge : {a b : String} → Sets.has b (edges a) ≡ true → Path₁ edges a b
  step : {a b c : String} → Sets.has b (edges a) ≡ true → Path₁ edges b c → Path₁ edges a c

pub Path₁-snoc :
    {edges : String → List String} {a b c : String}
    → Path₁ edges a b
    → Sets.has c (edges b) ≡ true
    → Path₁ edges a c
Path₁-snoc (edge h) k = step h (edge k)
Path₁-snoc (step h p) k = step h (Path₁-snoc p k)

abbrev pub IsAcyclic : (String → List String) → Type 0
IsAcyclic edges = (t : String) → ¬ Path₁ edges t t

abbrev pub HasCycle : (String → List String) → Type 0
HasCycle edges = (t : String) × Path₁ edges t t
