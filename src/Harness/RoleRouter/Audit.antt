-- ===== src/Harness/RoleRouter/Audit.antt =====
-- `validateAll` reports nothing exactly if every role can be resolved.
use dark_kitchen_orchestrato.Prelude.{
  String, ◌≡◌, ◌↔◌, refl, List, [], ◌∷◌, ◌++◌, Result, ok, err, All,
}
use dark_kitchen_orchestrato.Prelude.Maps
use dark_kitchen_orchestrato.Harness.RoleRouter.{
  RoleRouter, ResolvedRole, RouterError, resolve, errors_of, audit, validate_all,
}
use dark_kitchen_orchestrato.Harness.RoleRouter.Resolution.{ResolvesTo, resolve_iff}

-- A role of the router can be resolved.
abbrev pub IsRoutable : RoleRouter → String → Type 0
IsRoutable router id = (x : ResolvedRole) × ResolvesTo router id x

append_nil_inv : (xs ys : List RouterError) → xs ++ ys ≡ [] → (xs ≡ []) × (ys ≡ [])
append_nil_inv [] ys h = (refl, h)
append_nil_inv (x ∷ xs) ys h = absurd (cc)

module _ (router : RoleRouter) where
  routable :
      (id : String) (x : Result RouterError ResolvedRole)
      → resolve router id ≡ x
      → errors_of x ≡ []
      → IsRoutable router id
  routable id (ok r) e h = (r, (resolve_iff router id r).0 e)
  routable id (err y) e h = absurd (cc)

  audit_iff : (ids : List String) → (audit router ids ≡ []) ↔ All (IsRoutable router) ids
  unfolding audit
  audit_iff [] = (λ h. tt, λ h. refl)
  audit_iff (id ∷ ids) = (
    λ h.
        let (a, b) = append_nil_inv (errors_of (resolve router id)) (audit router ids) h in
        (routable id (resolve router id) refl a, (audit_iff ids).0 b),
    λ h.
        let e : resolve router id ≡ ok h.0.0 = (resolve_iff router id h.0.0).1 h.0.1 in
        rw e ((audit_iff ids).1 h.1),
  )

  -- The check before a run reports no error exactly if each configured role resolves to a profile
  -- and a runtime that fit it.
  validate_all_iff : (validate_all router ≡ []) ↔ All (IsRoutable router) (Maps.keys router.roles)
  validate_all_iff = audit_iff (Maps.keys router.roles)
