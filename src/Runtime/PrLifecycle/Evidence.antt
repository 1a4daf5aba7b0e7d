-- ===== src/Runtime/PrLifecycle/Evidence.antt =====
-- `validateVerificationProofs` of packages/runtime/src/pr-lifecycle.ts.
use Prim.Native.String.{◌++◌ as append}
use dark_kitchen_orchestrato.Prelude.{
  ℕ, ◌+◌, String, Option, none, some, or_else, List, [], ◌∷◌, ◌==◌, ltb, length, find,
  if◌then◌else◌,
}
use mathlib.Core.List.{reverse}
use dark_kitchen_orchestrato.Prelude.Sets
use dark_kitchen_orchestrato.Runtime.PrLifecycle.{
  TextApi, WorkflowResult, PrLifecycleOptions, VerificationProof, passed,
}
use dark_kitchen_orchestrato.Runtime.PrLifecycle.Texts.{status_text, is_blank, is_safe_evidence_ref}

-- `a ?? b` over messages: what is found first is returned.
abbrev pub first_error : Option String → Option String → Option String
first_error (some e) next = some e
first_error none next = next

abbrev about : String → String → String → String
about before profile_id after = append before (append profile_id after)

module _ (texts : TextApi) where
  -- One unsafe reference among those of a proof.
  abbrev pub check_refs : String → List String → Option String
  check_refs message [] = none
  check_refs message (ref ∷ refs) =
      let rest = check_refs message refs in
      if is_safe_evidence_ref texts ref then rest else some message

  -- The loop over the proofs, without its count.
  abbrev pub check_proofs : List VerificationProof → Option String
  check_proofs [] = none
  check_proofs (p ∷ ps) =
      let rest = check_proofs ps in
      if is_blank texts p.profile_id
      then some "Verification proof contains an empty profile ID"
      else first_error
          (check_refs
            (about "Verification profile \"" p.profile_id
              "\" contains an invalid or sensitive evidence reference")
            p.evidence_refs)
          rest

  -- The number of references of the proofs.
  abbrev pub count_refs : List VerificationProof → ℕ
  count_refs [] = 0
  count_refs (p ∷ ps) = length p.evidence_refs + count_refs ps

  -- The last proof of a profile.
  abbrev pub last_proof : String → List VerificationProof → Option VerificationProof
  last_proof profile_id ps = find (λ p. p.profile_id == profile_id) (reverse ps)

  abbrev pub check_last : String → Option VerificationProof → Option String
  check_last id none = some (about "Missing blocking verification proof for profile \"" id "\"")
  check_last id (some p) = elim p.status [
    | passed ↦ elim p.evidence_refs [
      | [] ↦
          some (about "Blocking verification profile \"" id "\" passed without evidence references")
      | ref ∷ refs ↦ none
    ]
    | other ↦ some (
        append "Blocking verification profile \"" (append id (append "\" is " (status_text other))))
  ]

  -- The loop over the required profiles.
  abbrev pub check_profiles : List VerificationProof → List String → Option String
  check_profiles ps [] = none
  check_profiles ps (id ∷ ids) =
      let rest = check_profiles ps ids in
      if is_blank texts id
      then some "Required verification profile ID must not be empty"
      else first_error (check_last id (last_proof id ps)) rest

  -- `validateVerificationProofs`
  unfoldable pub validate_verification_proofs : WorkflowResult → PrLifecycleOptions → Option String
  validate_verification_proofs r options =
      let required = Sets.of_list (or_else options.required_verification_profiles []) in
      let proofs = or_else r.verification_results [] in
      let refs = or_else r.evidence_refs [] in
      if ltb 50 (length proofs)
      then some "Workflow contains too many verification proof records"
      else first_error (check_proofs proofs) (
          if ltb 100 (length refs + count_refs proofs)
          then some "Workflow contains too many evidence references"
          else first_error (check_profiles proofs required)
              (check_refs "Workflow contains an invalid or sensitive evidence reference" refs))
