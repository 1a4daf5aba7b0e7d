-- ===== src/Config/Validation/Accepted.antt =====
-- Which configurations `validateConfig` of packages/config/src/validate.ts accepts.
use dark_kitchen_orchestrato.Prelude.{
  ℕ, String, ◌≡◌, refl, ◌↔◌, Bool, true, false, not, ◌&&◌, ◌||◌, or_else, List, [], ◌∷◌, ◌++◌, map,
  filter, length, ltb, ◌≤◌, ◌==◌, arith, All, ok,
}
use dark_kitchen_orchestrato.Prelude.Sets
use dark_kitchen_orchestrato.Config.Schema.{
  DarkKitchenConfig, Channel, Role, VerificationProfile, Workflow,
}
use dark_kitchen_orchestrato.Config.Validation.{
  Texts, Issue, issue_if, duplicates, is_set, webhook_of, secure, is_nonempty, is_unmanaged,
  is_unknown_role, verifier_profile, role_of, profile_of, harness_profile_ids, role_ids,
  verification_profile_ids, capabilities, channel_ids, fallback_issues, channel_issues, role_issues,
  verification_issues, workflow_issues, validate_references, secret, detect_inline_secrets,
  duplicate_errors, default_errors, all_errors, verdict, validate_config,
}
use dark_kitchen_orchestrato.Config.Validation.Lists.{
  issue_if-nil, unless-nil, nil_both, nil_each, duplicates-nil, Unseen, SoundFallback,
  fallback_issues-nil,
}

implies-nil : (a b : Bool) (i : Issue) → (issue_if (a && not b) i ≡ []) ↔ (a ≡ true → b ≡ true)
implies-nil false b i = (λ h p. absurd (cc), λ h. refl)
implies-nil true true i = (λ h p. refl, λ h. refl)
implies-nil true false i = (λ h p. absurd (cc), λ h. absurd (ground (arith, h refl)))

excludes-nil : (a b : Bool) (i : Issue) → (issue_if (a && b) i ≡ []) ↔ (a ≡ true → b ≡ false)
excludes-nil false b i = (λ h p. absurd (cc), λ h. refl)
excludes-nil true true i = (λ h p. absurd (cc), λ h. absurd (ground (arith, h refl)))
excludes-nil true false i = (λ h p. refl, λ h. refl)

none_seen : (ks : List String) → Unseen [] ks
unfolding Sets.has
none_seen [] = tt
none_seen (k ∷ ks) = (refl, none_seen ks)

unique-nil : (label : String) (ks : List String) → (duplicates label [] ks ≡ []) ↔ Sets.Uniq ks
unique-nil label ks =
    let d = duplicates-nil label [] ks in (λ h. (d.0 h).1, λ h. d.1 (none_seen ks, h))

module _ (texts : Texts) (config : DarkKitchenConfig) where
  -- No two parts of a kind share an identifier.
  abbrev pub UniqueIds : Type 0
  UniqueIds =
      Sets.Uniq (map (λ t. t.id) config.trackers)
      × (Sets.Uniq (map (λ t. t.id) config.repositories)
          × (Sets.Uniq (role_ids texts config)
              × (Sets.Uniq (harness_profile_ids texts config)
                  × (Sets.Uniq (verification_profile_ids texts config)
                      × (Sets.Uniq (map (λ p. p.id) config.capability_providers)
                          × (Sets.Uniq (channel_ids texts config)
                              × Sets.Uniq (map (λ w. w.id) config.workflows)))))))

  abbrev pub OneDefault : Type 0
  OneDefault = length (filter (λ w. w.is_default) config.workflows) ≤ 1

  -- A mode is for Telegram only, a webhook has an address of https and a secret, and a Telegram channel
  -- a target.
  abbrev pub SoundChannel : Channel → Type 0
  SoundChannel c =
      (is_set c.telegram_mode ≡ true → (c.kind == "telegram") ≡ true)
      × ((webhook_of c ≡ true → secure texts.is_https c.url ≡ true)
          × ((webhook_of c ≡ true → is_set c.webhook_secret_env ≡ true)
              × ((c.kind == "telegram") ≡ true → is_set c.default_target ≡ true)))

  -- A role names a known profile and, as fallbacks, known others, each once; only a managed profile is
  -- overridden.
  abbrev pub SoundRole : Role → Type 0
  SoundRole r =
      (Sets.has r.harness_profile_id (harness_profile_ids texts config) ≡ true)
      × ((All (SoundFallback (harness_profile_ids texts config) r) r.fallbacks
            × Sets.Uniq r.fallbacks)
          × (r.has_overrides ≡ true
              → is_unmanaged (profile_of config.harness_profiles r.harness_profile_id) ≡ false))

  -- What a verification asks for is there, and resources are injected in managed profiles only.
  abbrev pub SoundVerification : VerificationProfile → Type 0
  SoundVerification v =
      All (λ c. Sets.has c (capabilities texts config) ≡ true) (v.required_capabilities ++ v.tools)
      × ((is_unknown_role texts config v.verifier_role_id ≡ false)
          × ((is_nonempty v.skills || is_nonempty v.mcp_servers) ≡ true
              → is_unmanaged (
                  verifier_profile texts config
                    (role_of config.roles (or_else v.verifier_role_id "verifier")))
                ≡ false))

  abbrev pub SoundWorkflow : Workflow → Type 0
  SoundWorkflow w =
      All (λ r. Sets.has r (role_ids texts config) ≡ true) w.roles
      × (All (λ v. Sets.has v (verification_profile_ids texts config) ≡ true)
            w.verification_profiles
          × All (λ v. Sets.has v (verification_profile_ids texts config) ≡ true)
              w.verification_profiles_any)

  abbrev pub SoundReferences : Type 0
  SoundReferences =
      All SoundChannel config.channels
      × (All SoundRole config.roles
          × (All SoundVerification config.verification_profiles
              × (All SoundWorkflow config.workflows
                  × All (λ c. Sets.has c (channel_ids texts config) ≡ true)
                      config.policy_channels)))

  abbrev pub NoSecrets : Type 0
  NoSecrets =
      All (λ t. secret texts config t.token_env ≡ false) config.trackers
      × (All (λ r. secret texts config r.token_env ≡ false) config.repositories
          × All
              (λ c.
                (secret texts config c.token_env ≡ false)
                × (secret texts config c.webhook_secret_env ≡ false))
              config.channels)

  unique_ids : (duplicate_errors texts config ≡ []) ↔ UniqueIds
  unique_ids = nil_both _ _ (unique-nil _ _) (
      nil_both _ _ (unique-nil _ _) (
        nil_both _ _ (unique-nil _ _) (
          nil_both _ _ (unique-nil _ _) (
            nil_both _ _ (unique-nil _ _)
              (nil_both _ _ (unique-nil _ _) (nil_both _ _ (unique-nil _ _) (unique-nil _ _)))))))

  at_most_one : (n : ℕ) → (ltb 1 n ≡ false) ↔ (n ≤ 1)
  at_most_one n = (λ h. ground (arith, h), λ h. ground (arith, h))

  one_default : (default_errors texts config ≡ []) ↔ OneDefault
  one_default =
      let few = length (filter (λ w. w.is_default) config.workflows) in
      let a = issue_if-nil (ltb 1 few) _ in
      let c = at_most_one few in (λ h. c.0 (a.0 h), λ h. a.1 (c.1 h))

  sound_channel : (c : Channel) → (channel_issues texts config c ≡ []) ↔ SoundChannel c
  sound_channel c =
      nil_both _ _ (implies-nil _ _ _)
        (nil_both _ _ (implies-nil _ _ _) (nil_both _ _ (implies-nil _ _ _) (implies-nil _ _ _)))

  sound_fallbacks :
      (r : Role)
      → (fallback_issues (harness_profile_ids texts config) r [] r.fallbacks ≡ []) ↔ (
          All (SoundFallback (harness_profile_ids texts config) r) r.fallbacks
          × Sets.Uniq r.fallbacks)
  sound_fallbacks r =
      let f = fallback_issues-nil (harness_profile_ids texts config) r [] r.fallbacks in
      (λ h. ((f.0 h).0, (f.0 h).1.1), λ h. f.1 (h.0, (none_seen r.fallbacks, h.1)))

  sound_role : (r : Role) → (role_issues texts config r ≡ []) ↔ SoundRole r
  sound_role r =
      nil_both _ _ (unless-nil _ _) (nil_both _ _ (sound_fallbacks r) (excludes-nil _ _ _))

  sound_verification :
      (v : VerificationProfile) → (verification_issues texts config v ≡ []) ↔ SoundVerification v
  sound_verification v =
      nil_both _ _ (nil_each _ (λ c. unless-nil _ _) _)
        (nil_both _ _ (issue_if-nil _ _) (excludes-nil _ _ _))

  sound_workflow : (w : Workflow) → (workflow_issues texts config w ≡ []) ↔ SoundWorkflow w
  sound_workflow w =
      nil_both _ _ (nil_each _ (λ r. unless-nil _ _) _)
        (nil_both _ _ (nil_each _ (λ v. unless-nil _ _) _) (nil_each _ (λ v. unless-nil _ _) _))

  sound_references : (validate_references texts config ≡ []) ↔ SoundReferences
  sound_references = nil_both _ _ (nil_each _ sound_channel _) (
      nil_both _ _ (nil_each _ sound_role _) (
        nil_both _ _ (nil_each _ sound_verification _)
          (nil_both _ _ (nil_each _ sound_workflow _) (nil_each _ (λ c. unless-nil _ _) _))))

  no_secrets : (detect_inline_secrets texts config ≡ []) ↔ NoSecrets
  no_secrets = nil_both _ _ (nil_each _ (λ t. issue_if-nil _ _) _) (
      nil_both _ _ (nil_each _ (λ r. issue_if-nil _ _) _)
        (nil_each _ (λ c. nil_both _ _ (issue_if-nil _ _) (issue_if-nil _ _)) _))

  verdict_lem : (is : List Issue) → (verdict texts config is ≡ ok config) ↔ (is ≡ [])
  verdict_lem [] = (λ h. refl, λ h. refl)
  verdict_lem (i ∷ is) = (λ h. absurd (cc), λ h. absurd (cc))

  -- A parsed configuration is accepted exactly if the identifiers of each kind are unique, at most one
  -- workflow is the default, every channel, role, verification profile, workflow and channel of the
  -- policy is sound, that is, what it names is there, and no `tokenEnv` of a tracker, a repository or a
  -- channel and no `webhookSecretEnv` of a channel holds what looks like a secret. The `token2Env` of a
  -- channel may.
  pub validate_config_iff :
      (validate_config texts config ≡ ok config)
      ↔ (UniqueIds × (OneDefault × (SoundReferences × NoSecrets)))
  unfolding validate_config
  validate_config_iff =
      let v = verdict_lem (all_errors texts config) in
      let e =
        nil_both _ _ unique_ids
          (nil_both _ _ one_default (nil_both _ _ sound_references no_secrets)) in
      (λ h. e.0 (v.0 h), λ h. v.1 (e.1 h))
