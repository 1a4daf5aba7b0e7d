-- ===== src/Config/Validation/Lists.antt =====
-- When the loops of packages/config/src/validate.ts report nothing.
use dark_kitchen_orchestrato.Prelude.{
  String, ◌≡◌, refl, ap, ◌∙◌, ◌↔◌, Bool, true, false, not, List, [], ◌∷◌, ◌++◌, ◌==◌, eq_iff, arith,
  All,
}
use dark_kitchen_orchestrato.Prelude.Sets
use dark_kitchen_orchestrato.Config.Schema.{Role}
use dark_kitchen_orchestrato.Config.Validation.{
  Issue, duplicate, issue_if, issues_of, duplicates, fallback_issues, unknown_fallback,
  own_fallback, repeated_fallback,
}

pub issue_if-nil : (b : Bool) (i : Issue) → (issue_if b i ≡ []) ↔ (b ≡ false)
issue_if-nil true i = (λ h. absurd (cc), λ h. absurd (cc))
issue_if-nil false i = (λ h. refl, λ h. refl)

append-nil : (xs ys : List Issue) → xs ++ ys ≡ [] → (xs ≡ []) × (ys ≡ [])
append-nil [] ys h = (refl, h)
append-nil (x ∷ xs) ys h = absurd (cc)

-- Two lists in a row report nothing if each does.
pub nil_both :
    {P Q : Type 0} (xs ys : List Issue) → (xs ≡ []) ↔ P → (ys ≡ []) ↔ Q → (xs ++ ys ≡ []) ↔ (P × Q)
nil_both xs ys p q = (
  λ h. (p.0 (append-nil xs ys h).0, q.0 (append-nil xs ys h).1),
  λ h. ap (λ zs. zs ++ ys) (p.1 h.0) ∙ q.1 h.1,
)

pub nil_each :
    {A : Type 0} {P : A → Type 0} (f : A → List Issue)
    → ((x : A) → (f x ≡ []) ↔ P x)
    → (xs : List A) → (issues_of f xs ≡ []) ↔ All P xs
unfolding issues_of
nil_each f k [] = (λ h. tt, λ h. refl)
nil_each f k (x ∷ xs) = nil_both (f x) (issues_of f xs) (k x) (nil_each f k xs)

-- None of `ks` is among those seen.
abbrev pub Unseen : List String → List String → Type 0
Unseen seen ks = All (λ k. Sets.has k seen ≡ false) ks

Unseen-add :
    (k : String) (seen ks : List String)
    → Unseen (Sets.add k seen) ks ↔ ((Sets.has k ks ≡ false) × Unseen seen ks)
unfolding Sets.has
Unseen-add k seen [] = (λ h. (refl, tt), λ h. tt)
Unseen-add k seen (x ∷ ks) = (
  λ h. (
    ground (
      arith,
      Sets.has-add x k seen,
      eq_iff x k,
      eq_iff k x,
      h.0,
      ((Unseen-add k seen ks).0 h.1).0,
    ),
    (ground (arith, Sets.has-add x k seen, h.0), ((Unseen-add k seen ks).0 h.1).1),
  ),
  λ h. (
    ground (arith, Sets.has-add x k seen, eq_iff x k, eq_iff k x, h.0, h.1.0),
    (Unseen-add k seen ks).1 (ground (arith, h.0), h.1.1),
  ),
)

pub duplicates-nil :
    (label : String) (seen ks : List String)
    → (duplicates label seen ks ≡ []) ↔ (Unseen seen ks × Sets.Uniq ks)
unfolding duplicates
duplicates-nil label seen [] = (λ h. (tt, tt), λ h. refl)
duplicates-nil label seen (k ∷ ks) =
    let step =
      nil_both (issue_if (Sets.has k seen) (duplicate label k))
        (duplicates label (Sets.add k seen) ks) (issue_if-nil (Sets.has k seen) (duplicate label k))
        (duplicates-nil label (Sets.add k seen) ks) in
    let split = Unseen-add k seen ks in
    (
      λ h. let a = step.0 h in let c = split.0 a.1.0 in ((a.0, c.1), (c.0, a.1.1)),
      λ h. step.1 (h.0.0, (split.1 (h.1.0, h.0.1), h.1.1)),
    )

-- A fallback is a known profile, and not the role's own.
abbrev pub SoundFallback : List String → Role → String → Type 0
SoundFallback profiles role f =
    (Sets.has f profiles ≡ true) × ((f == role.harness_profile_id) ≡ false)

-- The test fails where it should not.
pub unless-nil : (b : Bool) (i : Issue) → (issue_if (not b) i ≡ []) ↔ (b ≡ true)
unless-nil true i = (λ h. refl, λ h. refl)
unless-nil false i = (λ h. absurd (cc), λ h. absurd (cc))

pub fallback_issues-nil :
    (profiles : List String) (role : Role) (seen fs : List String)
    → (fallback_issues profiles role seen fs ≡ [])
      ↔ (All (SoundFallback profiles role) fs × (Unseen seen fs × Sets.Uniq fs))
unfolding fallback_issues
fallback_issues-nil profiles role seen [] = (λ h. (tt, (tt, tt)), λ h. refl)
fallback_issues-nil profiles role seen (f ∷ fs) =
    let step = nil_both _ _ (unless-nil (Sets.has f profiles) (unknown_fallback role.id f)) (
      nil_both _ _ (issue_if-nil (f == role.harness_profile_id) (own_fallback role.id f)) (
        nil_both _ _ (issue_if-nil (Sets.has f seen) (repeated_fallback role.id f))
          (fallback_issues-nil profiles role (Sets.add f seen) fs))) in
    let split = Unseen-add f seen fs in
    (
      λ h.
          let a = step.0 h in
          let c = split.0 a.1.1.1.1.0 in
          (((a.0, a.1.0), a.1.1.1.0), ((a.1.1.0, c.1), (c.0, a.1.1.1.1.1))),
      λ h. step.1 (h.0.0.0, (h.0.0.1, (h.1.0.0, (h.0.1, (split.1 (h.1.1.0, h.1.0.1), h.1.1.1))))),
    )
