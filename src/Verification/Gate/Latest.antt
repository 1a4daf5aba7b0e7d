-- ===== src/Verification/Gate/Latest.antt =====
-- The gate on required profiles is decided by the latest run of each.
use dark_kitchen_orchestrato.Prelude.{
  String, ◌≡◌, ◌≢◌, refl, Bool, true, false, ◌⊎◌, inl, inr, Option, none, some, List, [], ◌∷◌, ◌++◌,
  All, if◌then◌else◌, arith, Bool-cases, ap,
}
use dark_kitchen_orchestrato.Verification.Runs.{
  VerificationRun, passed, Order, before, same, after, is_not_after,
}
use dark_kitchen_orchestrato.Verification.Gate.{
  VerificationService, is_passed_run, first_run, insert_latest, sort_latest, runs_of,
  is_blocking_verification_passed,
}

abbrev pub opposite : Order → Order
opposite before = after
opposite same = same
opposite after = before

abbrev pub le : Order → Bool
le after = false
le _ = true

-- `localeCompare` orders texts: it turns round with its arguments, and is transitive.
pub record IsOrder (locale_compare : String → String → Order) : Type 0 where
  pub flips : (a b : String) → locale_compare b a ≡ opposite (locale_compare a b)
  pub trans :
      (a b c : String)
      → le (locale_compare a b) ≡ true
      → le (locale_compare b c) ≡ true
      → le (locale_compare a c) ≡ true

-- Some member.
abbrev pub Any : (String → Type 0) → List String → Type 0
Any P [] = ⊥
Any P (x ∷ xs) = P x ⊎ Any P xs

module _ (locale_compare : String → String → Order) (order : IsOrder locale_compare) where
  abbrev Le : VerificationRun → VerificationRun → Type 0
  Le x y = is_not_after locale_compare x y ≡ true

  Le_total : (x y : VerificationRun) → is_not_after locale_compare x y ≡ false → Le y x
  Le_total x y h = ground (arith, order.flips x.started_at y.started_at, order.flips x.id y.id, h)

  Le_trans : (x y z : VerificationRun) → Le x y → Le y z → Le x z
  Le_trans x y z h k = ground (
    arith,
    order.trans x.started_at y.started_at z.started_at,
    order.trans y.started_at z.started_at x.started_at,
    order.trans z.started_at x.started_at y.started_at,
    order.trans x.id y.id z.id,
    order.flips x.started_at y.started_at,
    order.flips y.started_at z.started_at,
    order.flips x.started_at z.started_at,
    order.flips z.started_at x.started_at,
    h,
    k,
  )

  Le_refl : (x : VerificationRun) → Le x x
  Le_refl x = elim (Bool-cases (is_not_after locale_compare x x)) [
    | inl e ↦ e
    | inr e ↦ Le_total x x e
  ]

  -- The run is one of the list, and none of the list comes after it.
  abbrev pub IsLatest : List VerificationRun → VerificationRun → Type 0
  IsLatest rs r =
      (front rest : List VerificationRun) × (rs ≡ front ++ r ∷ rest)
      × All (λ x. is_not_after locale_compare x r ≡ true) rs

  abbrev Found : List VerificationRun → Option VerificationRun → Type 0
  Found rs none = rs ≡ []
  Found rs (some r) = IsLatest rs r

  abbrev pick : VerificationRun → Option VerificationRun → Option VerificationRun
  pick y none = some y
  pick y (some x) = if is_not_after locale_compare x y then some y else some x

  first_run-insert :
      (y : VerificationRun) (xs : List VerificationRun)
      → first_run (insert_latest locale_compare y xs) ≡ pick y (first_run xs)
  first_run-insert y [] = refl
  first_run-insert y (x ∷ xs) = ground arith

  All-Le :
      (x y : VerificationRun) (zs : List VerificationRun)
      → Le x y
      → All (λ z. is_not_after locale_compare z x ≡ true) zs
      → All (λ z. is_not_after locale_compare z y ≡ true) zs
  All-Le x y [] h a = tt
  All-Le x y (z ∷ zs) h a = (Le_trans z x y a.0 h, All-Le x y zs h a.1)

  pick-Found :
      (y : VerificationRun) (ys : List VerificationRun) (o : Option VerificationRun)
      → Found ys o
      → Found (y ∷ ys) (pick y o)
  pick-Found y ys none e = ([], ys, refl, rw e (Le_refl y, tt))
  pick-Found y ys (some x) (front, rest, e, a) =
      elim (Bool-cases (is_not_after locale_compare x y)) [
        | inl q ↦ rw q ([], ys, refl, (Le_refl y, All-Le x y ys q a))
        | inr q ↦ rw q (y ∷ front, rest, ap (λ l. y ∷ l) e, (Le_total x y q, a))
      ]

  sort_latest-Found :
      (rs : List VerificationRun) → Found rs (first_run (sort_latest locale_compare rs))
  unfolding sort_latest
  sort_latest-Found [] = refl
  sort_latest-Found (y ∷ ys) =
      rw (first_run-insert y (sort_latest locale_compare ys))
        (pick-Found y ys (first_run (sort_latest locale_compare ys)) (sort_latest-Found ys))

  module _ (task_id : String) (s : VerificationService) where
    -- The latest run of the profile passed.
    abbrev pub IsPassed : String → Type 0
    IsPassed id =
        (r : VerificationRun) × IsLatest (runs_of locale_compare task_id id s) r
        × (r.state ≡ passed)

    -- The profile has no run, or one that did not pass and that no other comes after.
    abbrev pub Lacks : String → Type 0
    Lacks id =
        (runs_of locale_compare task_id id s ≡ [])
        ⊎ ((r : VerificationRun) × IsLatest (runs_of locale_compare task_id id s) r
            × (r.state ≢ passed))

    IsPassed-of_Found :
        (id : String) (o : Option VerificationRun)
        → Found (runs_of locale_compare task_id id s) o
        → is_passed_run o ≡ true
        → IsPassed id
    IsPassed-of_Found id none f e = absurd (cc)
    IsPassed-of_Found id (some r) f e = (r, f, ground (arith, e))

    Lacks-of_Found :
        (id : String) (o : Option VerificationRun)
        → Found (runs_of locale_compare task_id id s) o
        → is_passed_run o ≡ false
        → Lacks id
    Lacks-of_Found id none f e = inl f
    Lacks-of_Found id (some r) f e = inr (r, f, λ q. ground (arith, e, q))

    -- The gate opens only if the latest run of every required profile passed. Where it stays shut,
    -- some required profile has no run, or a run that did not pass and that no other comes after.
    pub is_blocking_verification_passed_lem :
        (ids : List String)
        → (is_blocking_verification_passed locale_compare task_id ids s ≡ true → All IsPassed ids)
          × (is_blocking_verification_passed locale_compare task_id ids s ≡ false → Any Lacks ids)
    unfolding is_blocking_verification_passed
    is_blocking_verification_passed_lem [] = (λ h. tt, λ h. absurd (cc))
    is_blocking_verification_passed_lem (id ∷ ids) =
        let runs = runs_of locale_compare task_id id s in
        let found = sort_latest-Found runs in
        let rest = is_blocking_verification_passed_lem ids in
        let ok_now = is_passed_run (first_run (sort_latest locale_compare runs)) in
        elim (Bool-cases ok_now) [
          | inl q ↦ (
            λ h. (
              IsPassed-of_Found id (first_run (sort_latest locale_compare runs)) found q,
              rest.0 (ground (arith, h, q)),
            ),
            λ h. inr (rest.1 (ground (arith, h, q))),
          )
          | inr q ↦ (
            λ h. absurd (ground (arith, h, q)),
            λ h. inl (Lacks-of_Found id (first_run (sort_latest locale_compare runs)) found q),
          )
        ]
