-- ===== src/Harness/RoleRouter.antt =====
-- `RoleRouter` of packages/harness/src/role-router.ts. Of a runtime it reads the kind and the
-- capabilities; capabilities are texts.
pub mod Overrides
pub mod Resolution
pub mod Audit
use dark_kitchen_orchestrato.Prelude.{
  ℕ, String, Bool, true, false, not, ◌&&◌, ◌||◌, Option, none, some, is_some, List, [], ◌∷◌, ◌++◌,
  Result, ok, err, guard, ◌>>=◌, ◌>>◌, ◌==◌, ltb, length, if◌then◌else◌,
}
use dark_kitchen_orchestrato.Prelude.Sets
use dark_kitchen_orchestrato.Prelude.Maps

pub record RoleDefinition : Type 0 where
  pub role_id : String
  pub profile_id : String
  pub model_override : Option String
  pub reasoning_override : Option String
  pub instructions_override : Option String
  pub skills_override : Option (List String)
  pub mcp_servers_override : Option (List String)
  pub plugins_override : Option (List String)
  pub required_capabilities : Option (List String)

-- `HarnessProfile`; a user-managed profile has none of the optional fields.
pub record HarnessProfile : Type 0 where
  pub managed : Bool
  pub id : String
  pub kind : String
  pub model : Option String
  pub reasoning : Option String
  pub skills : Option (List String)
  pub mcp_servers : Option (List String)
  pub plugins : Option (List String)

pub record HarnessRuntime : Type 0 where
  pub id : String
  pub kind : String
  pub supported : List String

pub record ResolvedRole : Type 0 where
  pub role_id : String
  pub profile : HarnessProfile
  pub runtime : HarnessRuntime
  pub model_override : Option String
  pub reasoning_override : Option String
  pub instructions_override : Option String
  pub skills_override : Option (List String)
  pub mcp_servers_override : Option (List String)
  pub plugins_override : Option (List String)

pub data RouterError : Type 0 where
  role_not_found profile_not_found runtime_not_found duplicate_runtime_kind : String → RouterError
  overrides_unsupported unsupported_capability : String → String → RouterError

-- The maps of a router.
pub record RoleRouter : Type 0 where
  pub roles : List (String × RoleDefinition)
  pub profiles : List (String × HarnessProfile)
  pub runtimes : List (String × HarnessRuntime)

unfoldable pub add_roles :
    List RoleDefinition → List (String × RoleDefinition) → List (String × RoleDefinition)
add_roles [] m = m
add_roles (r ∷ rs) m = add_roles rs (Maps.put r.role_id r m)

unfoldable pub add_profiles :
    List HarnessProfile → List (String × HarnessProfile) → List (String × HarnessProfile)
add_profiles [] m = m
add_profiles (p ∷ ps) m = add_profiles ps (Maps.put p.id p m)

unfoldable pub add_runtimes :
    List HarnessRuntime
    → List (String × HarnessRuntime)
    → Result RouterError (List (String × HarnessRuntime))
add_runtimes [] m = ok m
add_runtimes (r ∷ rs) m = do
  guard (not (Maps.has r.kind m)) (duplicate_runtime_kind r.kind)
  add_runtimes rs (Maps.put r.kind r m)

-- The constructor.
unfoldable pub create_router :
    List RoleDefinition → List HarnessProfile → List HarnessRuntime → Result RouterError RoleRouter
unfolding add_roles add_profiles add_runtimes
create_router roles profiles runtimes = do
  m ← add_runtimes runtimes []
  ok (record { roles = add_roles roles []; profiles = add_profiles profiles []; runtimes = m })

-- An optional text that is there and not empty.
abbrev pub is_set : Option String → Bool
is_set none = false
is_set (some t) = not (t == "")

abbrev pub or_text : Option String → Option String → Option String
or_text none y = y
or_text (some t) y = some t

-- `(xs?.length ?? ys?.length ?? 0) > 0`
abbrev pub is_filled : Option (List String) → Option (List String) → Bool
is_filled (some xs) ys = ltb 0 (length xs)
is_filled none (some ys) = ltb 0 (length ys)
is_filled none none = false

-- The chain of `??` over the overrides, as a test: a text that is there decides, an array is true.
abbrev pub declares_overrides : RoleDefinition → Bool
declares_overrides d =
    elim (or_text d.model_override (or_text d.reasoning_override d.instructions_override)) [
      | some t ↦ not (t == "")
      | none ↦
          is_some d.skills_override || is_some d.mcp_servers_override || is_some d.plugins_override
    ]

abbrev pub add_if : Bool → String → List String → List String
add_if test cap s = if test then Sets.add cap s else s

-- `new Set(roleDef.requiredCapabilities ?? [])`
abbrev pub asked_capabilities : RoleDefinition → List String
asked_capabilities d = elim d.required_capabilities [ none ↦ [] | some cs ↦ Sets.of_list cs ]

-- `requiredCapabilities` when the loop begins.
unfoldable pub required_capabilities_of : RoleDefinition → HarnessProfile → List String
required_capabilities_of d p =
    if p.managed
    then add_if (is_filled d.plugins_override p.plugins) "skills.plugins" (
        add_if (is_filled d.mcp_servers_override p.mcp_servers) "skills.mcp" (
          add_if (is_filled d.skills_override p.skills) "skills.custom" (
            add_if (is_set (or_text d.reasoning_override p.reasoning)) "reasoning.selection" (
              add_if (is_set (or_text d.model_override p.model)) "model.selection"
                (asked_capabilities d)))))
    else asked_capabilities d

-- The loop over the required capabilities.
unfoldable pub check_capabilities :
    String → List String → List String → Result RouterError (Unit {0})
check_capabilities profile_id supported [] = ok tt
check_capabilities profile_id supported (c ∷ cs) = do
  guard (Sets.has c supported) (unsupported_capability c profile_id)
  check_capabilities profile_id supported cs

-- `if (override) Object.assign(…)` for a text.
abbrev pub only_set : Option String → Option String
only_set o = if is_set o then o else none

abbrev pub assemble : String → RoleDefinition → HarnessProfile → HarnessRuntime → ResolvedRole
assemble role_id d p r = record {
  role_id = role_id;
  profile = p;
  runtime = r;
  model_override = only_set d.model_override;
  reasoning_override = only_set d.reasoning_override;
  instructions_override = only_set d.instructions_override;
  skills_override = d.skills_override;
  mcp_servers_override = d.mcp_servers_override;
  plugins_override = d.plugins_override;
}

abbrev pub found : {A : Type 0} → RouterError → Option A → Result RouterError A
found e none = err e
found e (some x) = ok x

-- `resolve`
unfoldable pub resolve : RoleRouter → String → Result RouterError ResolvedRole
resolve router role_id = do
  d ← found (role_not_found role_id) (Maps.get role_id router.roles)
  p ← found (profile_not_found d.profile_id) (Maps.get d.profile_id router.profiles)
  guard (p.managed || not (declares_overrides d)) (overrides_unsupported role_id p.id)
  r ← found (runtime_not_found p.kind) (Maps.get p.kind router.runtimes)
  check_capabilities p.id r.supported (required_capabilities_of d p)
  ok (assemble role_id d p r)

abbrev pub errors_of : Result RouterError ResolvedRole → List RouterError
errors_of (ok r) = []
errors_of (err e) = e ∷ []

unfoldable pub audit : RoleRouter → List String → List RouterError
unfolding resolve
audit router [] = []
audit router (id ∷ ids) = errors_of (resolve router id) ++ audit router ids

-- `validateAll`
abbrev pub validate_all : RoleRouter → List RouterError
validate_all router = audit router (Maps.keys router.roles)
