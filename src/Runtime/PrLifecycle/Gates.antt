-- ===== src/Runtime/PrLifecycle/Gates.antt =====
-- What a workflow has shown when `PrLifecycleOrchestrator.run` calls any service.
use dark_kitchen_orchestrato.Prelude.{
  ◌+◌, String, ◌≡◌, ◌≢◌, refl, sym, ap, ◌∙◌, Bool, true, false, inl, inr, Option, none, some,
  or_else, List, [], ◌∷◌, ◌++◌, All, find, ltb, length, if◌then◌else◌, arith, Bool-cases,
  Option-cases, ◌==◌, eq_iff, ne_of_test,
}
use mathlib.Core.List.{reverse, reverse-cons}
use dark_kitchen_orchestrato.Prelude.Sets
use dark_kitchen_orchestrato.Runtime.PrLifecycle.{
  TextApi, Services, PrLifecycleOptions, PrLifecycleResult, WorkflowResult, VerificationProof,
  ProofStatus, passed, failed, blocked,
}
use dark_kitchen_orchestrato.Runtime.PrLifecycle.Texts.{is_blank}
use dark_kitchen_orchestrato.Runtime.PrLifecycle.Evidence.{
  first_error, check_proofs, check_refs, count_refs, last_proof, check_last, check_profiles,
  validate_verification_proofs,
}
use dark_kitchen_orchestrato.Runtime.PrLifecycle.Checks.{validate}
use dark_kitchen_orchestrato.Runtime.PrLifecycle.Closing.{after_validation, run}

-- The last proof of the profile passed and names some evidence.
abbrev pub IsProved : List VerificationProof → String → Type 0
IsProved proofs id =
    (before after : List VerificationProof) × (p : VerificationProof) × (proofs
      ≡ before ++ p ∷ after)
    × (p.profile_id ≡ id)
    × All (λ q. q.profile_id ≢ id) after
    × (p.status ≡ passed)
    × (p.evidence_refs ≢ [])

-- Tests and review passed, the worktree is not known to be dirty, and every required profile is
-- proved.
abbrev pub IsVouched : PrLifecycleOptions → WorkflowResult → Type 0
IsVouched options r =
    (r.repository_tests_passed ≡ true)
    × (r.review_passed ≡ true)
    × (r.worktree_clean ≢ some false)
    × All (IsProved (or_else r.verification_results []))
        (or_else options.required_verification_profiles [])

module _ {A : Type 0} (f : A → Bool) where
  abbrev or_first : Option A → Option A → Option A
  or_first (some a) o = some a
  or_first none o = o

  abbrev last_match : List A → Option A
  last_match [] = none
  last_match (x ∷ xs) = or_first (last_match xs) (if f x then some x else none)

  find-append : (xs ys : List A) → find f (xs ++ ys) ≡ or_first (find f xs) (find f ys)
  find-append [] ys = refl
  find-append (x ∷ xs) ys = ground (arith, find-append xs ys)

  find-reverse : (xs : List A) → find f (reverse xs) ≡ last_match xs
  find-reverse [] = refl
  find-reverse (x ∷ xs) =
      rw (reverse-cons x xs, find-append (reverse xs) (x ∷ []), find-reverse xs) refl

  none_matches : (xs : List A) → last_match xs ≡ none → All (λ x. f x ≡ false) xs
  none_matches [] e = tt
  none_matches (x ∷ xs) e = (ground (arith, e), none_matches xs (ground (arith, e)))

  split_at :
      (xs : List A) (a : A)
      → last_match xs ≡ some a
      → (before after : List A) × (xs ≡ before ++ a ∷ after)
        × (f a ≡ true)
        × All (λ x. f x ≡ false) after
  split_at [] a e = absurd (cc)
  split_at (x ∷ xs) a e = elim (Option-cases (last_match xs)) [
    | inr (b, q) ↦
        let (before, after, eq, hit, rest) = split_at xs a (ground (arith, q, e)) in
        (x ∷ before, after, ap (λ l. x ∷ l) eq, hit, rest)
    | inl q ↦ elim (Bool-cases (f x)) [
      | inl hit ↦ (
        [],
        xs,
        ap (λ y. y ∷ xs) (ground (arith, q, e, hit)),
        ground (arith, q, e, hit),
        none_matches xs q,
      )
      | inr miss ↦ absurd (ground (arith, q, e, miss))
    ]
  ]

unlike :
    (id : String) (ps : List VerificationProof)
    → All (λ q. (q.profile_id == id) ≡ false) ps
    → All (λ q. q.profile_id ≢ id) ps
unlike id [] h = tt
unlike id (p ∷ ps) h = (ne_of_test h.0, unlike id ps h.1)

module _ (texts : TextApi) where
  check_last-passed :
      (id : String) (p : VerificationProof) (s : ProofStatus) (refs : List String)
      → p.status ≡ s
      → p.evidence_refs ≡ refs
      → check_last texts id (some p) ≡ none
      → (p.status ≡ passed) × (p.evidence_refs ≢ [])
  check_last-passed id p passed [] e f h = ground (arith, e, f, h)
  check_last-passed id p passed (x ∷ xs) e f h = (e, λ q. cc)
  check_last-passed id p failed refs e f h = ground (arith, e, h)
  check_last-passed id p blocked refs e f h = ground (arith, e, h)

  proved :
      (id : String) (ps : List VerificationProof) (o : Option VerificationProof)
      → last_proof texts id ps ≡ o
      → check_last texts id o ≡ none
      → IsProved ps id
  proved id ps none e h = absurd (cc)
  proved id ps (some p) e h =
      let (before, after, eq, hit, rest) =
        split_at (λ (q : VerificationProof). q.profile_id == id) ps p
          (sym (find-reverse (λ (q : VerificationProof). q.profile_id == id) ps) ∙ e) in
      let last = check_last-passed id p p.status p.evidence_refs refl refl h in
      (before, after, p, eq, (eq_iff p.profile_id id).0 hit, unlike id after rest, last.0, last.1)

  first_error-none : (a b : Option String) → first_error a b ≡ none → (a ≡ none) × (b ≡ none)
  first_error-none none b h = (refl, h)
  first_error-none (some e) b h = absurd (cc)

  -- The third of the checks of the proofs.
  third_check :
      (a b : Bool) (x y : String) (o p q : Option String)
      → (if a then some x else first_error o (if b then some y else first_error p q)) ≡ none
      → p ≡ none
  third_check true b x y o p q h = absurd (cc)
  third_check false b x y (some e) p q h = absurd (cc)
  third_check false true x y none p q h = absurd (cc)
  third_check false false x y none p q h = (first_error-none p q h).0

  profiles-IsProved :
      (ps : List VerificationProof) (ids : List String)
      → check_profiles texts ps ids ≡ none
      → All (IsProved ps) ids
  profiles-IsProved ps [] h = tt
  profiles-IsProved ps (id ∷ ids) h = elim (Bool-cases (is_blank texts id)) [
    | inl q ↦ absurd (ground (arith, q, h))
    | inr q ↦
        let both =
          first_error-none (check_last texts id (last_proof texts id ps))
            (check_profiles texts ps ids) (ground (arith, q, h)) in
        (proved id ps (last_proof texts id ps) refl both.0, profiles-IsProved ps ids both.1)
  ]

  proofs-IsProved :
      (options : PrLifecycleOptions) (r : WorkflowResult)
      → validate_verification_proofs texts r options ≡ none
      → All
          (IsProved (or_else r.verification_results []))
          (or_else options.required_verification_profiles [])
  unfolding validate_verification_proofs
  proofs-IsProved options r h =
      let ps = or_else r.verification_results [] in
      let ids = or_else options.required_verification_profiles [] in
      let checked =
        third_check (ltb 50 (length ps))
          (ltb 100 (length (or_else r.evidence_refs []) + count_refs texts ps))
          "Workflow contains too many verification proof records"
          "Workflow contains too many evidence references" (check_proofs texts ps)
          (check_profiles texts ps (Sets.of_list ids))
          (check_refs texts "Workflow contains an invalid or sensitive evidence reference"
            (or_else r.evidence_refs []))
          h in
      Sets.All-of_has (IsProved ps) ids (λ x k.
        Sets.has_of_All (IsProved ps) (Sets.of_list ids) x
          (profiles-IsProved ps (Sets.of_list ids) checked) (Sets.has-of_list x ids ∙ k))

  validated-IsVouched :
      (options : PrLifecycleOptions) (r : WorkflowResult)
      → validate texts options r ≡ none
      → IsVouched options r
  unfolding validate
  validated-IsVouched options r h = (
    ground (arith, h),
    ground (arith, h),
    λ q. ground (arith, h, q),
    proofs-IsProved options r (ground (arith, h)),
  )

  module _ (options : PrLifecycleOptions) (services : Services) (r : WorkflowResult) where
    after_validation-IsVouched :
        (o : Option PrLifecycleResult)
        → validate texts options r ≡ o
        → (after_validation texts options services r o).1 ≢ []
        → IsVouched options r
    after_validation-IsVouched (some x) e h = absurd (h refl)
    after_validation-IsVouched none e h = validated-IsVouched options r e

    -- If any service is called at all, the tests of the repository and the review passed, the
    -- worktree is not known to be dirty, and of every required profile the last proof passed and
    -- names some evidence.
    pub run-IsVouched : (run texts options services r).1 ≢ [] → IsVouched options r
    unfolding run
    run-IsVouched h = after_validation-IsVouched (validate texts options r) refl h
