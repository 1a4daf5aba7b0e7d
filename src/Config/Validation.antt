-- ===== src/Config/Validation.antt =====
-- packages/config/src/validate.ts: what `validateConfig` checks after the schema. An absent list is
-- the empty one, and messages keep what tells them apart; whether a text looks like a secret or is an
-- address of https is an argument.
pub mod Lists
pub mod Accepted
use dark_kitchen_orchestrato.Prelude.{
  String, Bool, true, false, not, ◌&&◌, ◌||◌, Option, none, some, or_else, is_some, List, [], ◌∷◌,
  ◌++◌, map, filter, length, find, ltb, Result, ok, err, ◌==◌, if◌then◌else◌,
}
use dark_kitchen_orchestrato.Prelude.Sets
use dark_kitchen_orchestrato.Config.Schema.{
  Tracker, Channel, Role, HarnessProfile, VerificationProfile, CapabilityProvider, Workflow,
  DarkKitchenConfig,
}

pub data Issue : Type 0 where
  duplicate inline_secret : String → String → Issue
  several_defaults : Issue
  no_telegram no_https_url no_webhook_secret no_default_target : String → Issue
  unknown_profile unknown_fallback own_fallback repeated_fallback : String → String → Issue
  overrides_unsupported unknown_capability unknown_verifier injects_resources :
      String → String → Issue
  unknown_role unknown_verification_profile unknown_in_selector : String → String → Issue
  unknown_channel : String → Issue

pub record Texts : Type 0 where
  pub looks_like_secret : String → Bool
  pub is_https : String → Bool

-- `if (fails) errors.push(issue)`
abbrev pub issue_if : Bool → Issue → List Issue
issue_if fails issue = if fails then issue ∷ [] else []

-- `for (const x of xs) …`
unfoldable pub issues_of : {A : Type 0} → (A → List Issue) → List A → List Issue
issues_of f [] = []
issues_of f (x ∷ xs) = f x ++ issues_of f xs

-- `if (s)`
abbrev pub is_set : Option String → Bool
is_set none = false
is_set (some s) = not (s == "")

-- The loop of `collectDuplicates` over the identifiers.
unfoldable pub duplicates : String → List String → List String → List Issue
duplicates label seen [] = []
duplicates label seen (k ∷ ks) =
    issue_if (Sets.has k seen) (duplicate label k) ++ duplicates label (Sets.add k seen) ks

abbrev is_telegram : Channel → Bool
is_telegram c = c.kind == "telegram"

abbrev is_webhook : Option String → Bool
is_webhook none = false
is_webhook (some s) = s == "webhook"

abbrev pub secure : (String → Bool) → Option String → Bool
secure is_https none = false
secure is_https (some url) = is_https url

abbrev pub webhook_of : Channel → Bool
webhook_of c = is_telegram c && is_webhook c.telegram_mode

abbrev pub role_of : List Role → String → Option Role
role_of roles id = find (λ r. r.id == id) roles

abbrev pub profile_of : List HarnessProfile → String → Option HarnessProfile
profile_of profiles id = find (λ p. p.id == id) profiles

-- A profile that the user manages.
abbrev pub is_unmanaged : Option HarnessProfile → Bool
is_unmanaged none = false
is_unmanaged (some p) = not p.managed

abbrev pub is_nonempty : List String → Bool
is_nonempty [] = false
is_nonempty (x ∷ xs) = true

-- The loop over the fallbacks of a role.
unfoldable pub fallback_issues : List String → Role → List String → List String → List Issue
fallback_issues profiles role seen [] = []
fallback_issues profiles role seen (f ∷ fs) =
    issue_if (not (Sets.has f profiles)) (unknown_fallback role.id f)
    ++ (issue_if (f == role.harness_profile_id) (own_fallback role.id f)
        ++ (issue_if (Sets.has f seen) (repeated_fallback role.id f)
            ++ fallback_issues profiles role (Sets.add f seen) fs))

module _ (texts : Texts) (config : DarkKitchenConfig) where
  abbrev pub harness_profile_ids : List String
  harness_profile_ids = map (λ p. p.id) config.harness_profiles

  abbrev pub role_ids : List String
  role_ids = map (λ r. r.id) config.roles

  abbrev pub verification_profile_ids : List String
  verification_profile_ids = map (λ v. v.id) config.verification_profiles

  abbrev pub capabilities : List String
  capabilities = map (λ p. p.capability) config.capability_providers

  abbrev pub channel_ids : List String
  channel_ids = map (λ c. c.id) config.channels

  abbrev pub channel_issues : Channel → List Issue
  channel_issues c =
      issue_if (is_set c.telegram_mode && not (is_telegram c)) (no_telegram c.id)
      ++ (issue_if (webhook_of c && not (secure texts.is_https c.url)) (no_https_url c.id)
          ++ (issue_if (webhook_of c && not (is_set c.webhook_secret_env)) (no_webhook_secret c.id)
              ++ issue_if (is_telegram c && not (is_set c.default_target))
                  (no_default_target c.id)))

  abbrev pub role_issues : Role → List Issue
  role_issues r =
      issue_if (not (Sets.has r.harness_profile_id harness_profile_ids))
        (unknown_profile r.id r.harness_profile_id)
      ++ (fallback_issues harness_profile_ids r [] r.fallbacks
          ++ issue_if
              (r.has_overrides
                && is_unmanaged (profile_of config.harness_profiles r.harness_profile_id))
              (overrides_unsupported r.id r.harness_profile_id))

  -- The harness profile of the role that verifies.
  abbrev pub verifier_profile : Option Role → Option HarnessProfile
  verifier_profile none = none
  verifier_profile (some r) = profile_of config.harness_profiles r.harness_profile_id

  abbrev pub is_unknown_role : Option String → Bool
  is_unknown_role none = false
  is_unknown_role (some s) = not (s == "") && not (Sets.has s role_ids)

  abbrev pub injects : VerificationProfile → Bool
  injects v =
      (is_nonempty v.skills || is_nonempty v.mcp_servers)
      && is_unmanaged
          (verifier_profile (role_of config.roles (or_else v.verifier_role_id "verifier")))

  abbrev pub verification_issues : VerificationProfile → List Issue
  verification_issues v =
      issues_of (λ c. issue_if (not (Sets.has c capabilities)) (unknown_capability v.id c))
        (v.required_capabilities ++ v.tools)
      ++ (issue_if (is_unknown_role v.verifier_role_id)
            (unknown_verifier v.id (or_else v.verifier_role_id ""))
          ++ issue_if (injects v) (injects_resources v.id (or_else v.verifier_role_id "verifier")))

  abbrev pub workflow_issues : Workflow → List Issue
  workflow_issues w =
      issues_of (λ r. issue_if (not (Sets.has r role_ids)) (unknown_role w.id r)) w.roles
      ++ (issues_of
            (λ v.
              issue_if (not (Sets.has v verification_profile_ids))
                (unknown_verification_profile w.id v))
            w.verification_profiles
          ++ issues_of
              (λ v.
                issue_if (not (Sets.has v verification_profile_ids)) (unknown_in_selector w.id v))
              w.verification_profiles_any)

  -- `validateReferences`
  abbrev pub validate_references : List Issue
  validate_references =
      issues_of channel_issues config.channels
      ++ (issues_of role_issues config.roles
          ++ (issues_of verification_issues config.verification_profiles
              ++ (issues_of workflow_issues config.workflows
                  ++ issues_of (λ c. issue_if (not (Sets.has c channel_ids)) (unknown_channel c))
                      config.policy_channels)))

  abbrev pub secret : Option String → Bool
  secret none = false
  secret (some s) = texts.looks_like_secret s

  -- `detectInlineSecrets`
  abbrev pub detect_inline_secrets : List Issue
  detect_inline_secrets =
      issues_of (λ t. issue_if (secret t.token_env) (inline_secret "tracker" t.id)) config.trackers
      ++ (issues_of (λ r. issue_if (secret r.token_env) (inline_secret "repository" r.id))
            config.repositories
          ++ issues_of
              (λ c.
                issue_if (secret c.token_env) (inline_secret "channel" c.id)
                ++ issue_if (secret c.webhook_secret_env) (inline_secret "webhook" c.id))
              config.channels)

  abbrev pub duplicate_errors : List Issue
  duplicate_errors =
      duplicates "tracker" [] (map (λ t. t.id) config.trackers)
      ++ (duplicates "repository" [] (map (λ r. r.id) config.repositories)
          ++ (duplicates "role" [] role_ids
              ++ (duplicates "harnessProfile" [] harness_profile_ids
                  ++ (duplicates "verificationProfile" [] verification_profile_ids
                      ++ (duplicates "capabilityProvider" []
                            (map (λ p. p.id) config.capability_providers)
                          ++ (duplicates "channel" [] channel_ids
                              ++ duplicates "workflow" [] (map (λ w. w.id) config.workflows)))))))

  abbrev pub default_errors : List Issue
  default_errors =
      issue_if (ltb 1 (length (filter (λ w. w.is_default) config.workflows))) several_defaults

  abbrev pub all_errors : List Issue
  all_errors =
      duplicate_errors ++ (default_errors ++ (validate_references ++ detect_inline_secrets))

  abbrev pub verdict : List Issue → Result (List Issue) DarkKitchenConfig
  verdict [] = ok config
  verdict (i ∷ is) = err (i ∷ is)

  -- `validateConfig`, of a parsed configuration.
  unfoldable pub validate_config : Result (List Issue) DarkKitchenConfig
  unfolding duplicates issues_of fallback_issues
  validate_config = verdict all_errors
