-- ===== src/Runtime/Interventions/Settled.antt =====
-- A settled intervention is never reopened or changed.
use dark_kitchen_orchestrato.Prelude.{
  String, ◌≡◌, ◌≢◌, refl, ◌∙◌, sym, subst, true, false, not, Option, none, some, or_else,
  Option-cases, Bool-cases, inl, inr, List, [], ◌∷◌, Result, ok, err, ◌==◌, eq_iff, test_of_ne, All,
  All-filter, find, filter,
}
use dark_kitchen_orchestrato.Prelude.Maps
use dark_kitchen_orchestrato.Prelude.Maps.{get-put}
use dark_kitchen_orchestrato.Runtime.Intervention.{
  Intervention, InterventionStatus, resolved, dismissed, CreateInterventionInput,
  ResolveInterventionInput, is_active, same_nature, if_any, InterventionError,
  validate_create_input, validate_resolve_input,
}
use dark_kitchen_orchestrato.Runtime.Interventions.{
  Interventions, Request, creation, resolution, dismissal, existing_or, known_record, new_record,
  save_new, create_once, create, resolved_record, resolve, dismissed_record, dismiss, handle,
  handle_all,
}

-- The identifier that a call draws, if it draws one, is not `id`.
abbrev pub DrawsOther : String → Request → Type 0
DrawsOther id (creation input drawn now) = drawn ≢ id
DrawsOther id _ = Unit

module _ (id_for_key redact : String → String) where
  -- Each key of `activeByKey` leads to the identifier that is its hash.
  abbrev pub IsHashed : List (String × String) → Type 0
  IsHashed m = All (λ e. e.1 ≡ id_for_key e.0) m

  put-IsHashed :
      (k : String) (m : List (String × String))
      → IsHashed m
      → IsHashed (Maps.put k (id_for_key k) m)
  unfolding Maps.put
  put-IsHashed k [] h = (refl, tt)
  put-IsHashed k ((j, x) ∷ m) h = elim (Bool-cases (j == k)) [
    | inl e ↦ rw e (refl, h.1)
    | inr e ↦ rw e (h.0, put-IsHashed k m h.1)
  ]

  hashed :
      (k : String) (m : List (String × String))
      → IsHashed m
      → or_else (Maps.get k m) (id_for_key k) ≡ id_for_key k
  unfolding Maps.get
  hashed k [] h = refl
  hashed k ((j, x) ∷ m) h = elim (Bool-cases (j == k)) [
    | inl e ↦ rw e (h.0 ∙ rw ((eq_iff j k).0 e) refl)
    | inr e ↦ rw e (hashed k m h.1)
  ]

  module _ (id : String) (i : Intervention) (settled : is_active i.status ≡ false) where
    -- `i` is stored under `id`, and the keys are consistent.
    record Holds (s : Interventions) : Type 0 where
      here : Maps.get id s.store ≡ some i
      keys : IsHashed s.active_by_key

    put-Holds :
        (k : String) (x : Intervention) (s : Interventions) (keys : List (String × String))
        → Holds s
        → k ≢ id
        → IsHashed keys
        → Holds (record { store = Maps.put k x s.store; active_by_key = keys })
    put-Holds k x s keys h n q = record {
      here = get-put k id x s.store ∙ rw (test_of_ne k id n) h.here;
      keys = q;
    }

    existing_or-Holds :
        (s : Interventions) (o : Option Intervention) (made : Interventions × Intervention)
        → Holds s
        → (o ≡ none → Holds made.0)
        → Holds (existing_or s o made).0
    existing_or-Holds s (some x) made h f = h
    existing_or-Holds s none made h f = f refl

    save_new-Holds :
        (key : Option String) (input : CreateInterventionInput) (drawn now : String)
        (s : Interventions)
        → Holds s
        → drawn ≢ id
        → known_record id_for_key redact key s ≡ none
        → Holds
            (save_new id_for_key redact key (new_record id_for_key redact input key drawn now) s)
    save_new-Holds none input drawn now s h n e =
        put-Holds drawn (new_record id_for_key redact input none drawn now) s s.active_by_key h n
          h.keys
    save_new-Holds (some k) input drawn now s h n e =
        put-Holds (id_for_key k) (new_record id_for_key redact input (some k) drawn now) s
          (Maps.put k (id_for_key k) s.active_by_key) h other
          (put-IsHashed k s.active_by_key h.keys)
      where
        other : id_for_key k ≢ id
        other q = absurd (
            cc (
              h.here,
              sym (subst (λ x. Maps.get x s.store ≡ none) (hashed k s.active_by_key h.keys ∙ q) e),
            ))

    -- The record of a settled intervention is not one that a call may write.
    other_id :
        (k : String) (x : Intervention) (s : Interventions)
        → Holds s
        → Maps.get k s.store ≡ some x
        → is_active x.status ≡ true
        → k ≢ id
    other_id k x s h e a q =
        apart (same (sym e ∙ subst (λ z. Maps.get z s.store ≡ some i) (sym q) h.here))
      where
        same : {x y : Intervention} → some x ≡ some y → x ≡ y
        same e = cc

        apart : ¬ (x ≡ i)
        apart p = absurd (cc (sym settled ∙ subst (λ z. is_active z.status ≡ true) p a))

    by : (x y : Interventions) → x ≡ y → Holds y → Holds x
    by x y e h = subst Holds (sym e) h

    create-Holds :
        (input : CreateInterventionInput) (drawn now : String) (s : Interventions)
        → Holds s
        → drawn ≢ id
        → Holds (create id_for_key redact input drawn now s).0
    unfolding create create_once
    create-Holds input drawn now s h n = go (validate_create_input input) refl
      where
        key : Option String
        key = if_any input.deduplication_key

        go :
            (x : Result InterventionError (Unit {0}))
            → validate_create_input input ≡ x
            → Holds (create id_for_key redact input drawn now s).0
        go (err e) q = by (create id_for_key redact input drawn now s).0 s (rw (q, create) refl) h
        go (ok u) q =
            by (create id_for_key redact input drawn now s).0
              (create_once id_for_key redact input drawn now s).0 (rw (q, create) refl)
              (existing_or-Holds s (known_record id_for_key redact key s) _ h (λ e.
                existing_or-Holds s
                  (find (same_nature input.kind input.scope input.target_id) (Maps.values s.store))
                  _ h (λ _. save_new-Holds key input drawn now s h n e)))

    resolve-Holds :
        (input : ResolveInterventionInput) (now : String) (s : Interventions)
        → Holds s
        → Holds (resolve id_for_key redact input now s).0
    unfolding resolve
    resolve-Holds input now s h = go (validate_resolve_input input) refl
      where
        k : String
        k = input.intervention_id

        found :
            (x : Intervention)
            → Maps.get input.intervention_id s.store ≡ some x
            → validate_resolve_input input ≡ ok tt
            → (st : InterventionStatus) → x.status ≡ st
            → Holds (resolve id_for_key redact input now s).0
        found x g q resolved e =
            by (resolve id_for_key redact input now s).0 s (rw (q, g, e, resolve) refl) h
        found x g q dismissed e =
            by (resolve id_for_key redact input now s).0 s (rw (q, g, e, resolve) refl) h
        found x g q _ e =
            by (resolve id_for_key redact input now s).0
              (record {
                store =
                    Maps.put input.intervention_id (resolved_record id_for_key redact input now x)
                      s.store;
                active_by_key = filter (λ e. not (e.1 == input.intervention_id)) s.active_by_key;
              })
              (rw (q, g, e, resolve) refl)
              (put-Holds input.intervention_id (resolved_record id_for_key redact input now x) s
                (filter (λ e. not (e.1 == input.intervention_id)) s.active_by_key) h
                (other_id input.intervention_id x s h g (rw e refl))
                (All-filter (λ e. e.1 ≡ id_for_key e.0) (λ e. not (e.1 == input.intervention_id))
                  s.active_by_key h.keys))

        stored :
            (o : Option Intervention)
            → Maps.get input.intervention_id s.store ≡ o
            → validate_resolve_input input ≡ ok tt
            → Holds (resolve id_for_key redact input now s).0
        stored none g q = by (resolve id_for_key redact input now s).0 s (rw (q, g, resolve) refl) h
        stored (some x) g q = found x g q x.status refl

        go :
            (x : Result InterventionError (Unit {0}))
            → validate_resolve_input input ≡ x
            → Holds (resolve id_for_key redact input now s).0
        go (err e) q = by (resolve id_for_key redact input now s).0 s (rw (q, resolve) refl) h
        go (ok u) q = stored (Maps.get input.intervention_id s.store) refl q

    dismiss-Holds :
        (k : String) (resolved_by : Option String) (now : String) (s : Interventions)
        → Holds s
        → Holds (dismiss id_for_key redact k resolved_by now s).0
    unfolding dismiss
    dismiss-Holds k resolved_by now s h = elim (Option-cases (Maps.get k s.store)) [
      | inl e ↦ by (dismiss id_for_key redact k resolved_by now s).0 s (rw (e, dismiss) refl) h
      | inr (x, e) ↦ elim (Bool-cases (is_active x.status)) [
        | inl a ↦
            by (dismiss id_for_key redact k resolved_by now s).0
              (record s {
                store = Maps.put k (dismissed_record id_for_key redact resolved_by now x) s.store;
              })
              (rw (e, a, dismiss) refl)
              (put-Holds k (dismissed_record id_for_key redact resolved_by now x) s s.active_by_key
                h (other_id k x s h e a) h.keys)
        | inr a ↦ by (dismiss id_for_key redact k resolved_by now s).0 s (rw (e, a, dismiss) refl) h
      ]
    ]

    handle_all-Holds :
        (rs : List Request) (s : Interventions)
        → Holds s
        → All (DrawsOther id) rs
        → Holds (handle_all id_for_key redact rs s)
    unfolding handle_all handle
    handle_all-Holds [] s h n = h
    handle_all-Holds (creation input drawn now ∷ rs) s h n =
        handle_all-Holds rs (create id_for_key redact input drawn now s).0
          (create-Holds input drawn now s h n.0) n.1
    handle_all-Holds (resolution input now ∷ rs) s h n =
        handle_all-Holds rs (resolve id_for_key redact input now s).0 (resolve-Holds input now s h)
          n.1
    handle_all-Holds (dismissal k resolved_by now ∷ rs) s h n =
        handle_all-Holds rs (dismiss id_for_key redact k resolved_by now s).0
          (dismiss-Holds k resolved_by now s h) n.1

  -- A resolved or dismissed intervention stays as it is, whatever clients ask for, replays of its
  -- deduplication key included, if each key in use leads to the identifier that is its hash and no
  -- call draws the identifier of the intervention.
  pub settled_kept :
      (rs : List Request) (id : String) (i : Intervention) (s : Interventions)
      → is_active i.status ≡ false
      → Maps.get id s.store ≡ some i
      → IsHashed s.active_by_key
      → All (DrawsOther id) rs
      → Maps.get id (handle_all id_for_key redact rs s).store ≡ some i
  settled_kept rs id i s f g k n =
      (handle_all-Holds id i f rs s (record { here = g; keys = k }) n).here
