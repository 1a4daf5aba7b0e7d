-- ===== src/Harness/RoleRouter/Resolution.antt =====
-- A role is resolved exactly if its parts are configured and its runtime can do what it needs.
use dark_kitchen_orchestrato.Prelude.{
  String, ◌≡◌, ◌↔◌, refl, ◌∙◌, sym, Bool, true, false, not, ◌&&◌, ◌||◌, Option, none, some, List,
  [], ◌∷◌, Result, ok, guard, >>=-eq-ok, guard-eq-ok, ◌==◌, All, arith, Bool-cases, inl, inr,
}
use dark_kitchen_orchestrato.Prelude.Sets
use dark_kitchen_orchestrato.Prelude.Sets.{has-add, has-of_list, All-of_has, has_of_All}
use dark_kitchen_orchestrato.Prelude.Maps
use dark_kitchen_orchestrato.Harness.RoleRouter.{
  RoleDefinition, HarnessProfile, HarnessRuntime, ResolvedRole, RouterError, role_not_found,
  profile_not_found, runtime_not_found, overrides_unsupported, unsupported_capability, RoleRouter,
  is_set, or_text, is_filled, declares_overrides, add_if, asked_capabilities,
  required_capabilities_of, check_capabilities, assemble, found, resolve,
}
use dark_kitchen_orchestrato.Harness.RoleRouter.Overrides.{Unnoticed, declares_iff}

-- The role or its profile asks for the capability.
abbrev pub asks_for : RoleDefinition → String → Bool
asks_for d c = elim d.required_capabilities [ none ↦ false | some cs ↦ Sets.has c cs ]

-- A managed profile needs the capability for an option that it or the role sets.
abbrev pub needs_for_option : RoleDefinition → HarnessProfile → String → Bool
needs_for_option d p c =
    ("model.selection" == c && is_set (or_text d.model_override p.model))
    || ("reasoning.selection" == c && is_set (or_text d.reasoning_override p.reasoning))
    || ("skills.custom" == c && is_filled d.skills_override p.skills)
    || ("skills.mcp" == c && is_filled d.mcp_servers_override p.mcp_servers)
    || ("skills.plugins" == c && is_filled d.plugins_override p.plugins)

abbrev pub needs : RoleDefinition → HarnessProfile → String → Bool
needs d p c = asks_for d c || (p.managed && needs_for_option d p c)

has-add_if :
    (test : Bool) (k c : String) (s : List String)
    → Sets.has c (add_if test k s) ≡ ((k == c && test) || Sets.has c s)
has-add_if test k c s = ground (arith, has-add c k s)

has-asked : (d : RoleDefinition) (c : String) → Sets.has c (asked_capabilities d) ≡ asks_for d c
unfolding Sets.has
has-asked d c = go d.required_capabilities
  where
    go :
        (o : Option (List String))
        → Sets.has c (elim o [ none ↦ [] | some cs ↦ Sets.of_list cs ])
          ≡ elim o [ none ↦ false | some cs ↦ Sets.has c cs ]
    go none = refl
    go (some cs) = has-of_list c cs

reorder :
    (a b c d e asked : Bool)
    → (e || (d || (c || (b || (a || asked))))) ≡ (asked || (a || b || c || d || e))
reorder a b c d e asked = ground arith

or_false : (b : Bool) → b ≡ (b || false)
or_false true = refl
or_false false = refl

has-required :
    (d : RoleDefinition) (p : HarnessProfile) (c : String)
    → Sets.has c (required_capabilities_of d p) ≡ needs d p c
unfolding required_capabilities_of
has-required d p c = elim (Bool-cases p.managed) [
  | inl e ↦
      rw (e, has-add_if, has-add_if, has-add_if, has-add_if, has-add_if, has-asked)
        (reorder ("model.selection" == c && is_set (or_text d.model_override p.model))
          ("reasoning.selection" == c && is_set (or_text d.reasoning_override p.reasoning))
          ("skills.custom" == c && is_filled d.skills_override p.skills)
          ("skills.mcp" == c && is_filled d.mcp_servers_override p.mcp_servers)
          ("skills.plugins" == c && is_filled d.plugins_override p.plugins) (asks_for d c))
  | inr e ↦ rw (e, has-asked) (or_false (asks_for d c))
]

check_iff :
    (id : String) (supported cs : List String)
    → (check_capabilities id supported cs ≡ ok tt) ↔ All (λ c. Sets.has c supported ≡ true) cs
unfolding check_capabilities
check_iff id supported [] = (λ h. tt, λ h. refl)
check_iff id supported (c ∷ cs) = (
  λ h.
      let (u, first, last) =
        >>=-eq-ok (guard (Sets.has c supported) (unsupported_capability c id)) _ h in
      (
        guard-eq-ok (Sets.has c supported) (unsupported_capability c id) first,
        (check_iff id supported cs).0 last,
      ),
  λ h. rw h.0 ((check_iff id supported cs).1 h.1),
)

-- The role may set what it sets, and the runtime can do all that it needs.
pub record Compatible (d : RoleDefinition) (p : HarnessProfile) (r : HarnessRuntime) : Type 0 where
  pub plain : p.managed ≡ false → Unnoticed d
  pub able : (c : String) → needs d p c ≡ true → Sets.has c r.supported ≡ true

-- How a role comes to be resolved as `x`.
abbrev pub ResolvesTo : RoleRouter → String → ResolvedRole → Type 0
ResolvesTo router id x =
    (d : RoleDefinition) × (p : HarnessProfile) × (r : HarnessRuntime) × (Maps.get id router.roles
      ≡ some d)
    × (Maps.get d.profile_id router.profiles ≡ some p)
    × (Maps.get p.kind router.runtimes ≡ some r)
    × Compatible d p r
    × (x ≡ assemble id d p r)

found-some : {A : Type 0} (e : RouterError) (o : Option A) {x : A} → found e o ≡ ok x → o ≡ some x
found-some e none h = absurd (cc)
found-some e (some y) h = cc

plain_of : (m d : Bool) → (m || not d) ≡ true → m ≡ false → d ≡ false
plain_of m d h e = ground arith

guarded : (m d : Bool) → (m ≡ false → d ≡ false) → (m || not d) ≡ true
guarded true d h = refl
guarded false d h = rw (h refl) refl

-- A role is resolved exactly if its definition, its profile and a runtime of the profile's kind
-- are there, the runtime supports each capability that the role asks for or an option of a managed
-- profile needs, and, if the profile is user-managed, the first of the overrides of the model, the
-- reasoning and the instructions that is there is an empty text, whatever the other overrides are,
-- or none of the six overrides is there; it is then resolved to these three with the overrides that
-- are set.
pub resolve_iff :
    (router : RoleRouter) (id : String) (x : ResolvedRole)
    → (resolve router id ≡ ok x) ↔ ResolvesTo router id x
unfolding resolve
resolve_iff router id x = (forth, back)
  where
    forth : resolve router id ≡ ok x → ResolvesTo router id x
    forth h =
        let (d, a, h₁) = >>=-eq-ok (found (role_not_found id) (Maps.get id router.roles)) _ h in
        let (p, b, h₂) =
          >>=-eq-ok (found (profile_not_found d.profile_id) (Maps.get d.profile_id router.profiles))
            _ h₁ in
        let (u, c, h₃) =
          >>=-eq-ok
            (guard (p.managed || not (declares_overrides d)) (overrides_unsupported id p.id)) _
            h₂ in
        let (r, e, h₄) =
          >>=-eq-ok (found (runtime_not_found p.kind) (Maps.get p.kind router.runtimes)) _ h₃ in
        let (v, f, h₅) =
          >>=-eq-ok (check_capabilities p.id r.supported (required_capabilities_of d p)) _ h₄ in
        (
          d,
          p,
          r,
          found-some _ (Maps.get id router.roles) a,
          found-some _ (Maps.get d.profile_id router.profiles) b,
          found-some _ (Maps.get p.kind router.runtimes) e,
          record {
            plain = λ user. (declares_iff d).0 (
                plain_of p.managed (declares_overrides d)
                  (guard-eq-ok (p.managed || not (declares_overrides d)) _ c) user);
            able = λ c n.
                has_of_All (λ c. Sets.has c r.supported ≡ true) (required_capabilities_of d p) c
                  ((check_iff p.id r.supported (required_capabilities_of d p)).0 f)
                  (has-required d p c ∙ n);
          },
          same h₅,
        )
      where
        same : {y : ResolvedRole} → ◌≡◌ {A = Result RouterError ResolvedRole} (ok y) (ok x) → x ≡ y
        same q = cc

    back : ResolvesTo router id x → resolve router id ≡ ok x
    back (d, p, r, a, b, e, c, q) =
        let able : check_capabilities p.id r.supported (required_capabilities_of d p) ≡ ok tt =
          (check_iff p.id r.supported (required_capabilities_of d p)).1 (
            All-of_has (λ k. Sets.has k r.supported ≡ true) (required_capabilities_of d p)
              (λ k m. c.able k (sym (has-required d p k) ∙ m))) in
        rw
          (
            a,
            b,
            guarded p.managed (declares_overrides d) (λ user. (declares_iff d).1 (c.plain user)),
            e,
            able,
            q,
          )
          refl
