-- ===== src/Harness/RoleRouter/Overrides.antt =====
-- Which overrides the test of role-router.ts for a user-managed profile passes over.
use dark_kitchen_orchestrato.Prelude.{
  String, ◌≡◌, ◌↔◌, refl, ◌∙◌, sym, Bool, false, not, ◌||◌, Option, none, some, List, [], ◌∷◌, ap,
  eq_iff, is_some, ◌⊎◌, ◌==◌, arith, inl, inr,
}
use dark_kitchen_orchestrato.Harness.RoleRouter.{RoleDefinition, or_text, declares_overrides}

-- The chain of `??` over texts as a test, with the test of what follows them.
abbrev decided : List (Option String) → Bool → Bool
decided [] last = last
decided (none ∷ os) last = decided os last
decided (some t ∷ os) last = not (t == "")

-- The first text that is there is empty, or none is there and the rest holds.
abbrev pub FirstIsEmpty : List (Option String) → Type 0 → Type 0
FirstIsEmpty [] Rest = Rest
FirstIsEmpty (o ∷ os) Rest = (o ≡ some "") ⊎ ((o ≡ none) × FirstIsEmpty os Rest)

-- The overrides in the order in which they are asked for: the first text that is there is empty,
-- whatever the others are, or none of the six is there.
abbrev pub Unnoticed : RoleDefinition → Type 0
Unnoticed d =
    FirstIsEmpty (d.model_override ∷ d.reasoning_override ∷ d.instructions_override ∷ [])
      ((d.skills_override ≡ none) × ((d.mcp_servers_override ≡ none) × (d.plugins_override ≡ none)))

decided_iff :
    (os : List (Option String)) (last : Bool) {Rest : Type 0}
    → (last ≡ false) ↔ Rest
    → (decided os last ≡ false) ↔ FirstIsEmpty os Rest
decided_iff [] last e = e
decided_iff (none ∷ os) last e =
    let ih = decided_iff os last e in
    (λ h. inr (refl, ih.0 h), λ x. elim x [ inl q ↦ absurd (cc) | inr q ↦ ih.1 q.1 ])
decided_iff (some t ∷ os) last e = (
  λ h. inl (ap some ((eq_iff t "").0 (ground (arith, h)))),
  λ x. elim x [ inl q ↦ ground (arith, q, (eq_iff t "").1) | inr q ↦ absurd (cc) ],
)

none_set :
    {A B C : Type 0} (a : Option A) (b : Option B) (c : Option C)
    → ((is_some a || is_some b || is_some c) ≡ false) ↔ ((a ≡ none) × ((b ≡ none) × (c ≡ none)))
none_set none none none = (λ h. (refl, (refl, refl)), λ h. refl)
none_set (some a) b c = (λ h. absurd (cc), λ h. absurd (cc))
none_set none (some b) c = (λ h. absurd (cc), λ h. absurd (cc))
none_set none none (some c) = (λ h. absurd (cc), λ h. absurd (cc))

declares-decided :
    (m r i : Option String) (last : Bool)
    → elim (or_text m (or_text r i)) [ some t ↦ not (t == "") | none ↦ last ]
      ≡ decided (m ∷ r ∷ i ∷ []) last
declares-decided (some t) r i last = refl
declares-decided none (some t) i last = refl
declares-decided none none (some t) last = refl
declares-decided none none none last = refl

pub declares_iff : (d : RoleDefinition) → (declares_overrides d ≡ false) ↔ Unnoticed d
declares_iff d =
    let last =
      is_some d.skills_override || is_some d.mcp_servers_override || is_some d.plugins_override in
    let e = declares-decided d.model_override d.reasoning_override d.instructions_override last in
    let i =
      decided_iff (d.model_override ∷ d.reasoning_override ∷ d.instructions_override ∷ []) last
        (none_set d.skills_override d.mcp_servers_override d.plugins_override) in
    (λ h. i.0 (sym e ∙ h), λ u. e ∙ i.1 u)
