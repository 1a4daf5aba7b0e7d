-- ===== src/Runtime/Interventions/Single.antt =====
-- Incidents of one nature on one target never pile up: at most one of them is active.
use dark_kitchen_orchestrato.Prelude.{
  ℕ, ◌+◌, ◌≤◌, String, ◌≡◌, refl, sym, subst, Bool, true, false, not, ◌&&◌, Option, none, some,
  Option-cases, Bool-cases, inl, inr, List, [], ◌∷◌, Result, ok, err, ◌==◌, eq_iff, length, find,
  filter, arith, if◌then◌else◌,
}
use dark_kitchen_orchestrato.Prelude.Maps
use dark_kitchen_orchestrato.Runtime.Intervention.{
  Intervention, InterventionKind, InterventionScope, InterventionStatus, resolved, dismissed,
  InterventionKind-discrete, InterventionScope-discrete, CreateInterventionInput,
  ResolveInterventionInput, is_active, same_nature, if_any, InterventionError,
  validate_create_input, validate_resolve_input,
}
use dark_kitchen_orchestrato.Runtime.Interventions.{
  Interventions, Request, creation, resolution, dismissal, existing_or, known_record, new_record,
  save_new, create_once, create, resolved_record, resolve, dismissed_record, dismiss, handle,
  handle_all,
}

-- How many records satisfy a test.
abbrev pub count : (Intervention → Bool) → List (String × Intervention) → ℕ
count p m = length (filter p (Maps.values m))

count-put :
    (p : Intervention → Bool) (k : String) (i : Intervention) (m : List (String × Intervention))
    → count p (Maps.put k i m) ≤ count p m + (if p i then 1 else 0)
unfolding Maps.put
count-put p k i [] = ground arith
count-put p k i ((j, x) ∷ m) = ground (arith, count-put p k i m)

count-put-false :
    (p : Intervention → Bool) (k : String) (i : Intervention) (m : List (String × Intervention))
    → p i ≡ false
    → count p (Maps.put k i m) ≤ count p m
count-put-false p k i m h = ground (arith, count-put p k i m)

length-filter-none :
    (p : Intervention → Bool) (xs : List Intervention) → find p xs ≡ none → length (filter p xs) ≡ 0
length-filter-none p [] h = refl
length-filter-none p (x ∷ xs) h = elim (Bool-cases (p x)) [
  | inl e ↦ absurd (cc (rw e at h))
  | inr e ↦ rw e (length-filter-none p xs (rw e at h))
]

-- The natures for which a test holds.
nature_of :
    (k : InterventionKind) (c : InterventionScope) (t : String) (i : Intervention)
    → same_nature k c t i ≡ true
    → (i.kind ≡ k) × (i.scope ≡ c) × (i.target_id ≡ t)
unfolding same_nature
nature_of k c t i h =
    go (InterventionKind-discrete i.kind k) (InterventionScope-discrete i.scope c) h
  where
    go :
        (d : Dec (i.kind ≡ k)) (e : Dec (i.scope ≡ c))
        → (is_active i.status
            && elim d [ yes e ↦ true | no n ↦ false ]
            && elim e [ yes e ↦ true | no n ↦ false ]
            && (i.target_id == t))
          ≡ true
        → (i.kind ≡ k) × (i.scope ≡ c) × (i.target_id ≡ t)
    go (yes a) (yes b) q = (a, b, ground (arith, eq_iff i.target_id t))
    go (yes a) (no b) q = absurd (ground arith)
    go (no a) e q = absurd (ground arith)

inactive :
    (k : InterventionKind) (c : InterventionScope) (t : String) (i : Intervention)
    → is_active i.status ≡ false
    → same_nature k c t i ≡ false
unfolding same_nature
inactive k c t i h = rw h refl

abbrev pub IsSingle : Interventions → Type 0
IsSingle s =
    (k : InterventionKind) (c : InterventionScope) (t : String)
    → count (same_nature k c t) s.store ≤ 1

module _ (id_for_key redact : String → String) where
  existing_or-IsSingle :
      (s : Interventions) (o : Option Intervention) (made : Interventions × Intervention)
      → IsSingle s
      → (o ≡ none → IsSingle made.0)
      → IsSingle (existing_or s o made).0
  existing_or-IsSingle s (some i) made h f = h
  existing_or-IsSingle s none made h f = f refl

  create_once-IsSingle :
      (input : CreateInterventionInput) (drawn now : String) (s : Interventions)
      → IsSingle s
      → IsSingle (create_once id_for_key redact input drawn now s).0
  unfolding create_once
  create_once-IsSingle input drawn now s h =
      existing_or-IsSingle s (known_record id_for_key redact key s) _ h (λ _.
        existing_or-IsSingle s
          (find (same_nature input.kind input.scope input.target_id) (Maps.values s.store))
          (save_new id_for_key redact key i s, i) h fresh)
    where
      key : Option String
      key = if_any input.deduplication_key

      i : Intervention
      i = new_record id_for_key redact input key drawn now

      fresh :
          (find (same_nature input.kind input.scope input.target_id) (Maps.values s.store) ≡ none)
          → IsSingle (save_new id_for_key redact key i s)
      fresh e k c t = elim (Bool-cases (same_nature k c t i)) [
        | inl q ↦
            let (a, b, d) = nature_of k c t i q in
            let z : count (same_nature k c t) s.store ≡ 0 =
              subst (λ (x : InterventionKind). count (same_nature x c t) s.store ≡ 0) a
                (subst (λ (y : InterventionScope). count (same_nature input.kind y t) s.store ≡ 0) b
                  (subst (λ (w : String). count (same_nature input.kind input.scope w) s.store ≡ 0)
                    d
                    (length-filter-none (same_nature input.kind input.scope input.target_id)
                      (Maps.values s.store) e))) in
            ground (arith, count-put (same_nature k c t) i.id i s.store)
        | inr q ↦ ground (arith, h k c t, count-put-false (same_nature k c t) i.id i s.store q)
      ]

  put_inactive-IsSingle :
      (id : String) (i : Intervention) (s : Interventions) (keys : List (String × String))
      → is_active i.status ≡ false
      → IsSingle s
      → IsSingle (record { store = Maps.put id i s.store; active_by_key = keys })
  put_inactive-IsSingle id i s keys e h k c t =
      omega (arith, count-put-false (same_nature k c t) id i s.store (inactive k c t i e), h k c t)

  -- A call whose outcome is known.
  by : (x y : Interventions) → x ≡ y → IsSingle y → IsSingle x
  by x y e h = subst IsSingle (sym e) h

  create-IsSingle :
      (input : CreateInterventionInput) (drawn now : String) (s : Interventions)
      → IsSingle s
      → IsSingle (create id_for_key redact input drawn now s).0
  unfolding create
  create-IsSingle input drawn now s h = go (validate_create_input input) refl
    where
      go :
          (x : Result InterventionError (Unit {0}))
          → validate_create_input input ≡ x
          → IsSingle (create id_for_key redact input drawn now s).0
      go (err e) q = by (create id_for_key redact input drawn now s).0 s (rw (q, create) refl) h
      go (ok u) q =
          by (create id_for_key redact input drawn now s).0
            (create_once id_for_key redact input drawn now s).0 (rw (q, create) refl)
            (create_once-IsSingle input drawn now s h)

  resolve-IsSingle :
      (input : ResolveInterventionInput) (now : String) (s : Interventions)
      → IsSingle s
      → IsSingle (resolve id_for_key redact input now s).0
  unfolding resolve
  resolve-IsSingle input now s h = go (validate_resolve_input input) refl
    where
      settled :
          (i : Intervention)
          → Maps.get input.intervention_id s.store ≡ some i
          → validate_resolve_input input ≡ ok tt
          → (st : InterventionStatus) → i.status ≡ st
          → IsSingle (resolve id_for_key redact input now s).0
      settled i g q resolved e =
          by (resolve id_for_key redact input now s).0 s (rw (q, g, e, resolve) refl) h
      settled i g q dismissed e =
          by (resolve id_for_key redact input now s).0 s (rw (q, g, e, resolve) refl) h
      settled i g q _ e =
          by (resolve id_for_key redact input now s).0
            (record {
              store =
                  Maps.put input.intervention_id (resolved_record id_for_key redact input now i)
                    s.store;
              active_by_key = filter (λ e. not (e.1 == input.intervention_id)) s.active_by_key;
            })
            (rw (q, g, e, resolve) refl)
            (put_inactive-IsSingle input.intervention_id
              (resolved_record id_for_key redact input now i) s
              (filter (λ e. not (e.1 == input.intervention_id)) s.active_by_key) refl h)

      stored :
          (o : Option Intervention)
          → Maps.get input.intervention_id s.store ≡ o
          → validate_resolve_input input ≡ ok tt
          → IsSingle (resolve id_for_key redact input now s).0
      stored none g q = by (resolve id_for_key redact input now s).0 s (rw (q, g, resolve) refl) h
      stored (some i) g q = settled i g q i.status refl

      go :
          (x : Result InterventionError (Unit {0}))
          → validate_resolve_input input ≡ x
          → IsSingle (resolve id_for_key redact input now s).0
      go (err e) q = by (resolve id_for_key redact input now s).0 s (rw (q, resolve) refl) h
      go (ok u) q = stored (Maps.get input.intervention_id s.store) refl q

  dismiss-IsSingle :
      (id : String) (resolved_by : Option String) (now : String) (s : Interventions)
      → IsSingle s
      → IsSingle (dismiss id_for_key redact id resolved_by now s).0
  unfolding dismiss
  dismiss-IsSingle id resolved_by now s h = elim (Option-cases (Maps.get id s.store)) [
    | inl e ↦ by (dismiss id_for_key redact id resolved_by now s).0 s (rw (e, dismiss) refl) h
    | inr (i, e) ↦ elim (Bool-cases (is_active i.status)) [
      | inl a ↦
          by (dismiss id_for_key redact id resolved_by now s).0
            (record s {
              store = Maps.put id (dismissed_record id_for_key redact resolved_by now i) s.store;
            })
            (rw (e, a, dismiss) refl)
            (put_inactive-IsSingle id (dismissed_record id_for_key redact resolved_by now i) s
              s.active_by_key refl h)
      | inr a ↦ by (dismiss id_for_key redact id resolved_by now s).0 s (rw (e, a, dismiss) refl) h
    ]
  ]

  -- If of each kind of incident at most one record is active on one target, this stays so whatever
  -- clients ask for.
  pub handle_all-IsSingle :
      (rs : List Request) (s : Interventions)
      → IsSingle s
      → IsSingle (handle_all id_for_key redact rs s)
  unfolding handle_all handle
  handle_all-IsSingle [] s h = h
  handle_all-IsSingle (creation input drawn now ∷ rs) s h =
      handle_all-IsSingle rs (create id_for_key redact input drawn now s).0
        (create-IsSingle input drawn now s h)
  handle_all-IsSingle (resolution input now ∷ rs) s h =
      handle_all-IsSingle rs (resolve id_for_key redact input now s).0
        (resolve-IsSingle input now s h)
  handle_all-IsSingle (dismissal id resolved_by now ∷ rs) s h =
      handle_all-IsSingle rs (dismiss id_for_key redact id resolved_by now s).0
        (dismiss-IsSingle id resolved_by now s h)
