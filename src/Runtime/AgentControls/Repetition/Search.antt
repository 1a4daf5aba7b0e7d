-- ===== src/Runtime/AgentControls/Repetition/Search.antt =====
-- What findExistingReplacement of agent-controls.ts finds, before and after a replacement is saved.
use dark_kitchen_orchestrato.Prelude.{
  String, ◌≡◌, refl, sym, ◌∙◌, ap, Bool, true, false, ◌&&◌, Option, none, some, is_some, List, [],
  ◌∷◌, filter, ◌==◌, if◌then◌else◌, ok, arith, eq_refl, Bool-cases, inl, inr,
}
use dark_kitchen_orchestrato.Prelude.Stateful.{pure, ◌>>=◌, ◌>>◌, ask, require}
use dark_kitchen_orchestrato.Prelude.Stateful.Returns.{
  Returns, pure-Returns, ask-Returns, require-Returns, bind-Returns, then-Returns,
}
use dark_kitchen_orchestrato.Prelude.Maps
use dark_kitchen_orchestrato.Core.Runs.{AgentSession}
use dark_kitchen_orchestrato.Harness.RoleRouter.{HarnessRuntime}
use dark_kitchen_orchestrato.Runtime.AgentControls.{
  ReplacementAction, action_text, AgentSessionRuntimeBinding, Controls, StartSessionInput, Outside,
}
use dark_kitchen_orchestrato.Runtime.AgentControls.Store.{
  created_by, put_session, updated_session, put_binding, same_text,
}
use dark_kitchen_orchestrato.Runtime.AgentControls.Rows.{
  is_given, replaces, first_replacement, candidates, find_existing_replacement, nonempty,
  replacement_binding,
}

-- What a list of bindings shows once the session `r` is stored too.
module _ (p c : AgentSessionRuntimeBinding → Bool) (r : AgentSession)
    (old now : List (String × AgentSession))
    (stored : (j : String) → Maps.get j now ≡ (if r.id == j then some r else Maps.get j old)) where
  at_r : Maps.get r.id now ≡ some r
  at_r = stored r.id ∙ rw (eq_refl r.id) refl

  -- A binding that replaced nothing before replaces nothing now, or by `r`.
  step :
      (b : AgentSessionRuntimeBinding) (rest : Option AgentSession)
      → (p b && is_some (Maps.get b.session_id old)) ≡ false
      → rest ≡ some r
      → (if p b && is_some (Maps.get b.session_id now) then Maps.get b.session_id now else rest)
        ≡ some r
  step b rest h e = ground (arith, stored b.session_id, h, e)

  newest_first :
      (v : AgentSessionRuntimeBinding) (bs : List AgentSessionRuntimeBinding)
      → v.session_id ≡ r.id
      → p v ≡ true
      → first_replacement p now (v ∷ bs) ≡ some r
  newest_first v bs i pv =
      let here : Maps.get v.session_id now ≡ some r = ap (λ k. Maps.get k now) i ∙ at_r in
      rw (pv, here) refl

  none_of_first :
      (w : AgentSessionRuntimeBinding) (bs : List AgentSessionRuntimeBinding)
      → first_replacement p old (w ∷ bs) ≡ none
      → ((p w && is_some (Maps.get w.session_id old)) ≡ false) × (first_replacement p old bs ≡ none)
  none_of_first w bs h = (ground (arith, h), ground (arith, h))

  found_after_put :
      (v : AgentSessionRuntimeBinding) (m : List (String × AgentSessionRuntimeBinding))
      → v.session_id ≡ r.id
      → c v ≡ true
      → p v ≡ true
      → first_replacement p old (filter c (Maps.values m)) ≡ none
      → first_replacement p now (filter c (Maps.values (Maps.put v.session_id v m))) ≡ some r
  unfolding Maps.put
  found_after_put v [] i cv pv h = rw cv (newest_first v [] i pv)
  found_after_put v ((j, w) ∷ m) i cv pv h = elim (Bool-cases (j == v.session_id)) [
    | inl same ↦ rw (same, cv) (newest_first v (filter c (Maps.values m)) i pv)
    | inr other ↦ rw other (elim (Bool-cases (c w)) [
      | inl cw ↦
          let k = none_of_first w (filter c (Maps.values m)) (rw cw at h) in
          rw cw (step w _ k.0 (found_after_put v m i cv pv k.1))
      | inr cw ↦ rw cw (found_after_put v m i cv pv (rw cw at h))
    ])
  ]

abbrev pub found_in :
    AgentSession → ReplacementAction → String → Option String → Controls → Option AgentSession
found_in source action profile_id request_id st =
    first_replacement (replaces source action profile_id) st.sessions
      (candidates source request_id (Maps.values st.bindings))

pub found_in_rows :
    (source : AgentSession) (action : ReplacementAction) (profile_id : String)
    (request_id : Option String) (st after : Controls)
    → st.sessions ≡ after.sessions
    → st.bindings ≡ after.bindings
    → found_in source action profile_id request_id st
      ≡ found_in source action profile_id request_id after
found_in_rows source action profile_id request_id st after s g =
    ap
      (λ rows.
        first_replacement (replaces source action profile_id) rows
          (candidates source request_id (Maps.values st.bindings)))
      s
    ∙ ap
        (λ rows.
          first_replacement (replaces source action profile_id) after.sessions
            (candidates source request_id (Maps.values rows)))
        g

pub find_existing_rows :
    (source : AgentSession) (action : ReplacementAction) (profile_id : String)
    (request_id : Option String) (st : Controls) {o : Option AgentSession} {after : Controls}
    → Returns (find_existing_replacement source action profile_id request_id) st o after
    → (found_in source action profile_id request_id st ≡ o) × (st ≡ after)
unfolding find_existing_replacement
find_existing_rows source action profile_id request_id st h =
    let (found, s1, e1, h1) = bind-Returns _ _ st h in
    let (existing, s2, e2, h2) = bind-Returns _ _ s1 h1 in
    let (u, s3, e3, h3) = then-Returns _ _ s2 h2 in
    let k1 = ask-Returns _ st e1 in
    let k2 = ask-Returns _ s1 e2 in
    let k3 = require-Returns _ _ s2 e3 in
    let k4 = pure-Returns _ s3 h3 in
    (
      ap (λ f. first_replacement (replaces source action profile_id) st.sessions f) k1.0
          ∙ (ap (λ s. first_replacement (replaces source action profile_id) s.sessions found) k1.1
              ∙ (k2.0 ∙ k4.0)),
      k1.1 ∙ (k2.1 ∙ (k3.1 ∙ k4.1)),
    )

pub find_existing_again :
    (source : AgentSession) (action : ReplacementAction) (profile_id : String)
    (request_id : Option String) (st : Controls) (r : AgentSession)
    → found_in source action profile_id request_id st ≡ some r
    → find_existing_replacement source action profile_id request_id st ≡ (ok (some r), st)
unfolding find_existing_replacement ◌>>=◌ ◌>>◌ ask require pure
find_existing_again source action profile_id request_id st r e = rw e refl

-- Which bindings the store lists for a request.
abbrev listed : AgentSession → Option String → AgentSessionRuntimeBinding → Bool
listed source request_id b =
    if is_given request_id
    then same_text b.control_request_id request_id
    else same_text b.source_session_id (some source.id)

filter_if :
    {A : Type 0} (p q : A → Bool) (g : Bool) (xs : List A)
    → (if g then filter p xs else filter q xs) ≡ filter (λ x. if g then p x else q x) xs
filter_if p q true xs = refl
filter_if p q false xs = refl

candidates-filter :
    (source : AgentSession) (request_id : Option String) (bs : List AgentSessionRuntimeBinding)
    → candidates source request_id bs ≡ filter (listed source request_id) bs
candidates-filter source request_id bs = filter_if _ _ (is_given request_id) bs

same_nonempty : (o : Option String) → is_given o ≡ true → same_text (nonempty o) o ≡ true
same_nonempty none h = absurd (cc)
same_nonempty (some s) h = ground (arith, h, eq_refl s)

module _ (outside : Outside) (source : AgentSession) (b : AgentSessionRuntimeBinding)
    (action : ReplacementAction) (request_id : Option String) (runtime : HarnessRuntime)
    (input : StartSessionInput) (id now : String) where
  abbrev made : AgentSessionRuntimeBinding
  made = replacement_binding source b action request_id runtime input id now

  made-listed : listed source request_id made ≡ true
  made-listed = elim (Bool-cases (is_given request_id)) [
    | inl given ↦ rw given (same_nonempty request_id given)
    | inr none_given ↦ rw none_given (eq_refl source.id)
  ]

  made-replaces : replaces source action input.profile.id made ≡ true
  made-replaces =
      rw (eq_refl source.id, eq_refl (action_text action), eq_refl input.profile.id) refl

  -- After the binding and the session were saved, the search finds the session.
  pub found_then :
      (r : AgentSession) (st after : Controls)
      → r.id ≡ id
      → Maps.get id st.sessions ≡ none
      → found_in source action input.profile.id request_id st ≡ none
      → after.sessions ≡ (put_session r (put_binding outside made st)).sessions
      → after.bindings ≡ (put_binding outside made st).bindings
      → found_in source action input.profile.id request_id after ≡ some r
  found_then r st after i n h s g =
      let kept : AgentSessionRuntimeBinding = record made {
        initial_prompt = outside.redact_stored b.initial_prompt;
        created_at = created_by (Maps.get id st.bindings) now;
      } in
      let fresh_row : Maps.get r.id st.sessions ≡ none = ap (λ k. Maps.get k st.sessions) i ∙ n in
      let stored : (j : String)
          → Maps.get j after.sessions ≡ (if r.id == j then some r else Maps.get j st.sessions) =
        λ j.
          ap (λ rows. Maps.get j rows) s
          ∙ (Maps.get-put r.id j (updated_session r (Maps.get r.id st.sessions)) st.sessions
              ∙ ap (λ o. if r.id == j then some (updated_session r o) else Maps.get j st.sessions)
                  fresh_row) in
      let before =
        sym (
          ap (λ bs. first_replacement (replaces source action input.profile.id) st.sessions bs)
            (candidates-filter source request_id (Maps.values st.bindings)))
        ∙ h in
      ap
        (λ rows.
          first_replacement (replaces source action input.profile.id) after.sessions
            (candidates source request_id (Maps.values rows)))
        g
      ∙ (ap (λ bs. first_replacement (replaces source action input.profile.id) after.sessions bs)
            (candidates-filter source request_id (Maps.values (Maps.put id kept st.bindings)))
          ∙ found_after_put (replaces source action input.profile.id) (listed source request_id) r
              st.sessions after.sessions stored kept st.bindings (sym i) made-listed made-replaces
              before)
