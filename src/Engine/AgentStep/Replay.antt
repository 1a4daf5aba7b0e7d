-- ===== src/Engine/AgentStep/Replay.antt =====
-- A step that returned is replayed from the journal, and a stored checkpoint is offered once.
use dark_kitchen_orchestrato.Prelude.{
  String, ◌≡◌, ◌≢◌, refl, ◌∙◌, true, false, Bool-cases, Option, none, some, Option-cases, inl, inr,
  [], subst, ap, eq_iff, ne_of_test, ◌==◌,
}
use dark_kitchen_orchestrato.Engine.Journal.{Journal, get, get_in_flight}
use dark_kitchen_orchestrato.Engine.Retry.{
  Outcome, returned, threw, cancelled, misconfigured, RetryPolicy, Aborts, with_retry,
}
use dark_kitchen_orchestrato.Engine.Retry.Rule.{Ensures}
use dark_kitchen_orchestrato.Engine.AgentStep.{
  AgentError, AgentCallOutput, Harness, Step, Stepped, attempt, conclude, unless_fired, read_step,
  run_agent_step,
}
use dark_kitchen_orchestrato.Engine.AgentStep.Attempts.{
  OffersOnce, stored, Before, Stopped, After, begun, step-EndsWell,
}

module _ {V C : Type 0} (harness : Harness V C) (role call_key : String) (j : Journal V C)
    (aborts : Aborts) (policy : Option RetryPolicy) where
  -- What the attempts together leave, for each way to end.
  abbrev pub Finished : Step V C → Outcome AgentError (AgentCallOutput V) → Type 0
  Finished =
      Ensures (Before harness role call_key j) (Stopped harness role call_key j)
        (After harness role call_key j)

  abbrev pub done : Stepped V C
  done = run_agent_step aborts harness role call_key policy j

  pub step_unread :
      harness.reading ≡ true
      → done ≡ record { journal = j; offers = []; events = []; outcome = cancelled }
  unfolding run_agent_step
  step_unread r = ap (λ b. unless_fired b j (read_step aborts harness role call_key policy j)) r

  step_read : harness.reading ≡ false → done ≡ read_step aborts harness role call_key policy j
  unfolding run_agent_step
  step_read r = ap (λ b. unless_fired b j (read_step aborts harness role call_key policy j)) r

  pub step_run :
      harness.reading ≡ false
      → get call_key j ≡ none
      → done
        ≡ conclude call_key (
            with_retry aborts
              (attempt harness role call_key (stored harness role call_key j))
              policy
              (begun harness role call_key j))
  unfolding read_step
  step_run r e = step_read r ∙ rw (e, read_step)

  -- If the signal does not fire while the journal is read, a completed step is replayed: the
  -- journal stays as it is, no runner is called, and the recorded result is returned.
  pub step_replayed :
      (v : V)
      → harness.reading ≡ false
      → get call_key j ≡ some v
      → done ≡ record {
        journal = j;
        offers = [];
        events = [];
        outcome = returned (record { role = role; result = v; call_key = call_key });
      }
  unfolding read_step
  step_replayed v r e = step_read r ∙ rw (e, read_step)

  once_of :
      (s : Step V C) (o : Outcome AgentError (AgentCallOutput V))
      → Finished s o
      → OffersOnce (stored harness role call_key j) s.offers
  once_of s (returned a) h = h.once
  once_of s (threw e) h = h.once
  once_of s cancelled h = h.once
  once_of s misconfigured h = h.once

  -- The checkpoint of an interrupted run is offered to the first runner that is called, and to
  -- no later one.
  pub checkpoint_once : OffersOnce (get_in_flight call_key j) done.offers
  checkpoint_once = elim (Bool-cases harness.reading) [
    | inl r ↦ rw (step_unread r) tt
    | inr r ↦ elim (Option-cases (get call_key j)) [
      | inl e ↦
          let x =
            with_retry aborts (attempt harness role call_key (stored harness role call_key j))
              policy (begun harness role call_key j) in
          rw (step_run r e)
            (once_of x.state x.outcome (step-EndsWell harness role call_key j aborts policy))
      | inr (v, e) ↦ rw (step_replayed v r e) tt
    ]
  ]

  After-of :
      (s : Step V C) (o : Outcome AgentError (AgentCallOutput V)) (a : AgentCallOutput V)
      → Finished s o
      → o ≡ returned a
      → (After harness role call_key j) s a
  After-of s (returned b) a h e = subst ((After harness role call_key j) s) (returned_injective e) h
    where
      returned_injective :
          {x y : AgentCallOutput V}
          → ◌≡◌ {A = Outcome AgentError (AgentCallOutput V)} (returned x) (returned y)
          → x ≡ y
      returned_injective e = cc
  After-of s (threw x) a h e = absurd (cc)
  After-of s cancelled a h e = absurd (cc)
  After-of s misconfigured a h e = absurd (cc)

  -- The journal of a step that ran and returned is the one that its last attempt left.
  step_returned :
      (a : AgentCallOutput V)
      → harness.reading ≡ false
      → get call_key j ≡ none
      → done.outcome ≡ returned a
      → (s : Step V C) × (done.journal ≡ s.journal) × (After harness role call_key j) s a
  step_returned a r e h =
      let x =
        with_retry aborts (attempt harness role call_key (stored harness role call_key j)) policy
          (begun harness role call_key j) in
      let q : x.outcome ≡ returned a = rw (step_run r e) at h in
      (
        x.state,
        rw (step_run r e) (rw q refl),
        After-of x.state x.outcome a (step-EndsWell harness role call_key j aborts policy) q,
      )

  -- A step that returned has read the journal, and has its result in it under its own key.
  pub step_own :
      (a : AgentCallOutput V)
      → done.outcome ≡ returned a
      → (harness.reading ≡ false)
        × (get call_key done.journal ≡ some a.result)
        × (a.role ≡ role)
        × (a.call_key ≡ call_key)
  step_own a h = elim (Bool-cases harness.reading) [
    | inl r ↦ absurd (unread (rw (step_unread r) at h))
    | inr r ↦ elim (Option-cases (get call_key j)) [
      | inl e ↦ let (s, p, q) = step_returned a r e h in (r, rw p q.recorded, q.named.0, q.named.1)
      | inr (v, e) ↦ rw (step_replayed v r e) (replayed v r e (rw (step_replayed v r e) at h))
    ]
  ]
    where
      unread : ◌≡◌ {A = Outcome AgentError (AgentCallOutput V)} cancelled (returned a) → ⊥
      unread e = absurd (cc)

      replayed :
          (v : V)
          → harness.reading ≡ false
          → get call_key j ≡ some v
          → ◌≡◌ {A = Outcome AgentError (AgentCallOutput V)}
              (returned (record { role = role; result = v; call_key = call_key }))
              (returned a)
          → (harness.reading ≡ false)
            × (get call_key j ≡ some a.result)
            × (a.role ≡ role)
            × (a.call_key ≡ call_key)
      replayed v r e q = (r, cc, cc, cc)

  step_others :
      (a : AgentCallOutput V) (i : String)
      → done.outcome ≡ returned a
      → call_key ≢ i
      → get i done.journal ≡ get i j
  step_others a i h n =
      let r = (step_own a h).0 in
      elim (Option-cases (get call_key j)) [
        | inl e ↦ let (s, p, q) = step_returned a r e h in rw p (q.others i n)
        | inr (v, e) ↦ rw (step_replayed v r e)
      ]

  -- A step that returned has its result in the journal, under its own key, and left the results
  -- of all other steps alone.
  pub step_recorded :
      (a : AgentCallOutput V) (i : String)
      → done.outcome ≡ returned a
      → call_key ≢ i
      → (get call_key done.journal ≡ some a.result)
        × (get i done.journal ≡ get i j)
        × (a.role ≡ role)
        × (a.call_key ≡ call_key)
  step_recorded a i h n = let (r, p, q, k) = step_own a h in (p, step_others a i h n, q, k)

  -- No step that returned overwrites a result that the journal had.
  pub step_kept :
      (a : AgentCallOutput V) (i : String) (v : V)
      → done.outcome ≡ returned a
      → get i j ≡ some v
      → get i done.journal ≡ some v
  step_kept a i v h e = elim (Bool-cases (call_key == i)) [
    | inl b ↦
        let k : call_key ≡ i = (eq_iff call_key i).0 b in
        ap (λ (x : Stepped V C). get i x.journal)
          (step_replayed v (step_own a h).0 (ap (λ k. get k j) k ∙ e))
        ∙ e
    | inr b ↦ step_others a i h (ne_of_test b) ∙ e
  ]
