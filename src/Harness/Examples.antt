-- ===== src/Harness/Examples.antt =====
-- A router with two roles.
use dark_kitchen_orchestrato.Prelude.{
  String, ◌≡◌, ◌↔◌, refl, Bool, true, false, Option, none, some, [], ◌∷◌, ok, err,
}
use dark_kitchen_orchestrato.Prelude.Maps
use dark_kitchen_orchestrato.Harness.RoleRouter.{
  RoleDefinition, HarnessProfile, HarnessRuntime, RouterError, RoleRouter, create_router, add_roles,
  add_profiles, add_runtimes, required_capabilities_of, check_capabilities, assemble, resolve,
}
use dark_kitchen_orchestrato.Harness.RoleRouter.Resolution.{ResolvesTo, resolve_iff}

abbrev role : String → Option String → Option String → RoleDefinition
role id model instructions = record {
  role_id = id;
  profile_id = "main";
  model_override = model;
  reasoning_override = none;
  instructions_override = instructions;
  skills_override = none;
  mcp_servers_override = none;
  plugins_override = none;
  required_capabilities = none;
}

abbrev profile : Bool → HarnessProfile
profile managed = record {
  managed = managed;
  id = "main";
  kind = "acp";
  model = none;
  reasoning = none;
  skills = none;
  mcp_servers = none;
  plugins = none;
}

abbrev runtime : HarnessRuntime
runtime = record { id = "r"; kind = "acp"; supported = "model.selection" ∷ [] }

abbrev router : Bool → RoleDefinition → RoleRouter
router managed d = record {
  roles = (d.role_id, d) ∷ [];
  profiles = ("main", profile managed) ∷ [];
  runtimes = ("acp", runtime) ∷ [];
}

created :
    create_router (role "coder" (some "large") none ∷ []) (profile true ∷ []) (runtime ∷ [])
    ≡ ok (router true (role "coder" (some "large") none))
unfolding create_router add_roles add_profiles add_runtimes Maps.put Maps.get
created = refl

resolve_iff_example :
    (resolve (router true (role "coder" (some "large") none)) "coder"
      ≡ ok (assemble "coder" (role "coder" (some "large") none) (profile true) runtime))
    ↔ ResolvesTo
        (router true (role "coder" (some "large") none))
        "coder"
        (assemble "coder" (role "coder" (some "large") none) (profile true) runtime)
resolve_iff_example =
    resolve_iff (router true (role "coder" (some "large") none)) "coder"
      (assemble "coder" (role "coder" (some "large") none) (profile true) runtime)

-- An override of a user-managed profile is refused, unless an empty text stands before it.
refused :
    resolve (router false (role "coder" none (some "be brief"))) "coder"
    ≡ err (RouterError.overrides_unsupported "coder" "main")
unfolding resolve Maps.get
refused = refl

hidden_override :
    resolve (router false (role "coder" (some "") (some "be brief"))) "coder"
    ≡ ok (assemble "coder" (role "coder" (some "") (some "be brief")) (profile false) runtime)
unfolding resolve Maps.get required_capabilities_of check_capabilities
hidden_override = refl
