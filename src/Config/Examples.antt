-- ===== src/Config/Examples.antt =====
-- Small configurations for packages/config/src/validate.ts.
use dark_kitchen_orchestrato.Prelude.{
  ◌≡◌, refl, ◌↔◌, true, false, none, some, [], ◌∷◌, ok, err, ◌==◌,
}
use dark_kitchen_orchestrato.Prelude.Sets
use dark_kitchen_orchestrato.Config.Schema.{DarkKitchenConfig}
use dark_kitchen_orchestrato.Config.Validation.{
  Texts, issues_of, duplicates, fallback_issues, repeated_fallback, duplicate, validate_config,
}
use dark_kitchen_orchestrato.Config.Validation.Accepted.{
  UniqueIds, OneDefault, SoundReferences, NoSecrets, validate_config_iff,
}

abbrev texts : Texts
texts = record { looks_like_secret = λ s. s == "ghp_1"; is_https = λ s. true }

abbrev house : DarkKitchenConfig
house = record {
  trackers = record { id = "linear"; token_env = some "LINEAR" } ∷ [];
  repositories = [];
  channels =
      record {
        id = "ops";
        kind = "telegram";
        telegram_mode = some "webhook";
        url = some "https://x";
        webhook_secret_env = some "HOOK";
        default_target = some "chat";
        token_env = none;
        token2_env = some "SLACK_APP";
      }
      ∷ [];
  roles =
      record {
        id = "coder";
        harness_profile_id = "acp";
        fallbacks = "spare" ∷ [];
        has_overrides = true;
      }
      ∷ [];
  harness_profiles =
      record { id = "acp"; managed = true } ∷ record { id = "spare"; managed = false } ∷ [];
  verification_profiles = [];
  capability_providers = [];
  workflows =
      record {
        id = "w";
        roles = "coder" ∷ [];
        verification_profiles = [];
        verification_profiles_any = [];
        is_default = true;
      }
      ∷ [];
  policy_channels = "ops" ∷ [];
}

accepted : validate_config texts house ≡ ok house
unfolding validate_config duplicates issues_of fallback_issues Sets.has Sets.add
accepted = refl

abbrev broken : DarkKitchenConfig
broken = record house {
  roles =
      record {
        id = "coder";
        harness_profile_id = "acp";
        fallbacks = "spare" ∷ "spare" ∷ [];
        has_overrides = true;
      }
      ∷ [];
  trackers =
      record { id = "linear"; token_env = none } ∷ record { id = "linear"; token_env = none } ∷ [];
}

refused :
    validate_config texts broken
    ≡ err (duplicate "tracker" "linear" ∷ repeated_fallback "coder" "spare" ∷ [])
unfolding validate_config duplicates issues_of fallback_issues Sets.has Sets.add
refused = refl

validate_config_iff_example : (validate_config texts house ≡ ok house) ↔ (
    UniqueIds texts house
    × (OneDefault texts house × (SoundReferences texts house × NoSecrets texts house)))
validate_config_iff_example = validate_config_iff texts house
