-- ===== src/Config/Schema.antt =====
-- What packages/config/src/schema.ts yields, as far as validate.ts reads it.
use dark_kitchen_orchestrato.Prelude.{String, Bool, Option, List}

pub record Tracker : Type 0 where
  pub id : String
  pub token_env : Option String

pub record Channel : Type 0 where
  pub id : String
  pub kind : String
  pub telegram_mode : Option String
  pub url : Option String
  pub webhook_secret_env : Option String
  pub default_target : Option String
  pub token_env : Option String
  pub token2_env : Option String

pub record Role : Type 0 where
  pub id : String
  pub harness_profile_id : String
  pub fallbacks : List String
  pub has_overrides : Bool

pub record HarnessProfile : Type 0 where
  pub id : String
  pub managed : Bool

pub record VerificationProfile : Type 0 where
  pub id : String
  pub required_capabilities : List String
  pub tools : List String
  pub verifier_role_id : Option String
  pub skills : List String
  pub mcp_servers : List String

pub record CapabilityProvider : Type 0 where
  pub id : String
  pub capability : String

pub record Workflow : Type 0 where
  pub id : String
  pub roles : List String
  pub verification_profiles : List String
  pub verification_profiles_any : List String
  pub is_default : Bool

pub record DarkKitchenConfig : Type 0 where
  pub trackers : List Tracker
  pub repositories : List Tracker
  pub channels : List Channel
  pub roles : List Role
  pub harness_profiles : List HarnessProfile
  pub verification_profiles : List VerificationProfile
  pub capability_providers : List CapabilityProvider
  pub workflows : List Workflow
  pub policy_channels : List String
