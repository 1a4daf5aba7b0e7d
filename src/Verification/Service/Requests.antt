-- ===== src/Verification/Service/Requests.antt =====
-- A request that is repeated does not start a second run.
use dark_kitchen_orchestrato.Prelude.{
  String, ◌≡◌, refl, sym, ap, ◌∙◌, subst, Bool, true, ◌&&◌, Option, none, some, List, [], ◌∷◌, ◌++◌,
  Result, ok, err, >>=-eq-ok, ◌==◌, eq_refl, filter, All, All-filter, Bool-cases, inl, inr,
}
use dark_kitchen_orchestrato.Prelude.Maps
use dark_kitchen_orchestrato.Verification.Runs.{
  VerificationRun, create_run, Order, is_not_after, insert_run, sort_runs, last_of,
}
use dark_kitchen_orchestrato.Verification.Service.{
  ServiceError, Profile, Answer, Runs, settle, is_reusable, require_profile, task_of, profile_for,
  request, reuse, newest,
}

-- A map without the key gets the new run at its end.
values-put :
    (k : String) (r : VerificationRun) (s : Runs)
    → Maps.get k s ≡ none
    → Maps.values (Maps.put k r s) ≡ Maps.values s ++ r ∷ []
unfolding Maps.get Maps.put
values-put k r [] e = refl
values-put k r ((j, x) ∷ s) e = elim (Bool-cases (j == k)) [
  | inl q ↦ absurd (cc (rw q at e))
  | inr q ↦ rw q (ap (λ l. x ∷ l) (values-put k r s (rw q at e)))
]

filter-append_one :
    (p : VerificationRun → Bool) (xs : List VerificationRun) (r : VerificationRun)
    → p r ≡ true
    → filter p (xs ++ r ∷ []) ≡ filter p xs ++ r ∷ []
filter-append_one p [] r h = rw h refl
filter-append_one p (x ∷ xs) r h = elim (Bool-cases (p x)) [
  | inl e ↦ rw e (ap (λ l. x ∷ l) (filter-append_one p xs r h))
  | inr e ↦ rw e (filter-append_one p xs r h)
]

last_of-cons :
    (x r : VerificationRun) (l : List VerificationRun)
    → last_of l ≡ some r
    → last_of (x ∷ l) ≡ some r
last_of-cons x r [] h = absurd (cc)
last_of-cons x r (y ∷ l) h = h

module _ (locale_compare : String → String → Order) where
  last_of-insert_run :
      (x r : VerificationRun) (l : List VerificationRun)
      → is_not_after locale_compare x r ≡ true
      → last_of l ≡ some r
      → last_of (insert_run locale_compare x l) ≡ some r
  last_of-insert_run x r [] e h = absurd (cc)
  last_of-insert_run x r (y ∷ []) e h =
      rw (subst (λ z. is_not_after locale_compare x z ≡ true) (sym (same h)) e) h
    where
      same : {x y : VerificationRun} → some x ≡ some y → x ≡ y
      same e = cc
  last_of-insert_run x r (y ∷ z ∷ zs) e h = elim (Bool-cases (is_not_after locale_compare x y)) [
    | inl q ↦ rw q h
    | inr q ↦ rw q (
        last_of-cons y r (insert_run locale_compare x (z ∷ zs))
          (last_of-insert_run x r (z ∷ zs) e h))
  ]

  last_of-sort_runs :
      (xs : List VerificationRun) (r : VerificationRun)
      → All (λ x. is_not_after locale_compare x r ≡ true) xs
      → last_of (sort_runs locale_compare (xs ++ r ∷ [])) ≡ some r
  unfolding sort_runs
  last_of-sort_runs [] r h = refl
  last_of-sort_runs (x ∷ xs) r h =
      last_of-insert_run x r (sort_runs locale_compare (xs ++ r ∷ [])) h.0
        (last_of-sort_runs xs r h.1)

  module _ (profiles : List Profile) (required_profile : String → Option String) where
    -- The run that a request makes is the newest of its task and profile, if its identifier is new
    -- and no run of the service comes after it.
    newest-put :
        (t p id now : String) (s : Runs)
        → Maps.get id s ≡ none
        → All (λ x. is_not_after locale_compare x (create_run id now t p 1) ≡ true) (Maps.values s)
        → newest profiles required_profile locale_compare t p
            (Maps.put id (create_run id now t p 1) s)
          ≡ some (create_run id now t p 1)
    newest-put t p id now s f h =
        let r = create_run id now t p 1 in
        let mine : VerificationRun → Bool = λ x. (x.task_id == t) && (x.profile_id == p) in
        let e : mine r ≡ true = rw (eq_refl t, eq_refl p) refl in
        rw (values-put id r s f) (
          rw (filter-append_one mine (Maps.values s) r e) (
            last_of-sort_runs (filter mine (Maps.values s)) r
              (All-filter _ mine (Maps.values s) h)))

    again :
        (task : String) (profile_id : Option String) (id now : String) (s : Runs) {t p : String}
        {q : Profile}
        → task_of task ≡ ok t
        → profile_for profiles required_profile locale_compare task profile_id ≡ ok p
        → require_profile profiles p ≡ ok q
        → request profiles required_profile locale_compare task profile_id id now s
          ≡ ok (
              reuse profiles required_profile locale_compare
                (newest profiles required_profile locale_compare t p s)
                (create_run id now t p 1))
    unfolding request
    again task profile_id id now s a b c = rw (a, b, c) refl

    answered :
        (s : Runs) (x : Result ServiceError Answer) {run : VerificationRun}
        → (settle s x).1 ≡ ok run
        → (a : Answer) × (x ≡ ok a)
    unfolding settle
    answered s (ok a) e = (a, refl)
    answered s (err y) e = absurd (cc)

    -- What the second request comes to, whether the first made a run or not.
    second :
        (t p id now id₂ now₂ : String) (s : Runs)
        → Maps.get id s ≡ none
        → All (λ x. is_not_after locale_compare x (create_run id now t p 1) ≡ true) (Maps.values s)
        → (o : Option VerificationRun) → newest profiles required_profile locale_compare t p s ≡ o
        → let x =
            settle s
              (ok (reuse profiles required_profile locale_compare o (create_run id now t p 1))) in
          settle x.0 (
            ok (
              reuse profiles required_profile locale_compare
                (newest profiles required_profile locale_compare t p x.0)
                (create_run id₂ now₂ t p 1)))
          ≡ x
    unfolding settle
    second t p id now id₂ now₂ s f h none e = rw (newest-put t p id now s f h) refl
    second t p id now id₂ now₂ s f h (some old) e = elim (Bool-cases (is_reusable old.state)) [
      | inl q ↦ rw q (rw e (rw q refl))
      | inr q ↦ rw q (rw (newest-put t p id now s f h) refl)
    ]

    -- A request that is repeated gets the run of the first request and changes nothing, provided
    -- that the identifier drawn first is new and no run of the service comes after a run of that
    -- identifier and time: retries of a call make no second run.
    pub request_again :
        (task : String) (profile_id : Option String) (id now id₂ now₂ : String) (s : Runs)
        (run : VerificationRun)
        → Maps.get id s ≡ none
        → ((t p : String)
            → All
                (λ x. is_not_after locale_compare x (create_run id now t p 1) ≡ true)
                (Maps.values s))
        → (settle s (request profiles required_profile locale_compare task profile_id id now s)).1
          ≡ ok run
        → let s₂ =
            (settle s
              (request profiles required_profile locale_compare task profile_id id now s)).0 in
          settle s₂ (request profiles required_profile locale_compare task profile_id id₂ now₂ s₂)
          ≡ (s₂, ok run)
    unfolding request
    request_again task profile_id id now id₂ now₂ s run f h e =
        let (a, first) =
          answered s (request profiles required_profile locale_compare task profile_id id now s)
            e in
        let (t, b, rest) = >>=-eq-ok (task_of task) _ first in
        let (p, c, more) =
          >>=-eq-ok (profile_for profiles required_profile locale_compare task profile_id) _ rest in
        let (q, d, last) = >>=-eq-ok (require_profile profiles p) _ more in
        let o = newest profiles required_profile locale_compare t p s in
        let x =
          settle s
            (ok (reuse profiles required_profile locale_compare o (create_run id now t p 1))) in
        let here = again task profile_id id now s b c d in
        let there = again task profile_id id₂ now₂ x.0 b c d in
        let same : x.1 ≡ ok run = subst (λ y. (settle s y).1 ≡ ok run) here e in
        subst
          (λ y.
            settle (settle s y).0 (
              request profiles required_profile locale_compare task profile_id id₂ now₂
                (settle s y).0)
            ≡ ((settle s y).0, ok run))
          (sym here)
          (ap (settle x.0) there
            ∙ second t p id now id₂ now₂ s f (h t p) o refl
            ∙ ap (λ (y : Result ServiceError VerificationRun). (x.0, y)) same)
