-- ===== src/Engine/AgentStep/Failure.antt =====
-- What an agent step that threw or was cancelled leaves in the journal.
use dark_kitchen_orchestrato.Prelude.{
  String, ◌≡◌, ◌≢◌, ◌∙◌, false, Bool-cases, Option, none, Option-cases, inl, inr, eq_iff, arith,
}
use dark_kitchen_orchestrato.Engine.Journal.{Journal, get, get_in_flight, clear_in_flight}
use dark_kitchen_orchestrato.Engine.Journal.Laws.{get_in_flight-clear, get-clear}
use dark_kitchen_orchestrato.Engine.Retry.{
  Outcome, returned, threw, cancelled, RetryPolicy, Aborts, Ended, with_retry,
}
use dark_kitchen_orchestrato.Engine.AgentStep.{
  AgentError, AgentCallOutput, Harness, Step, attempt, conclude,
}
use dark_kitchen_orchestrato.Engine.AgentStep.Attempts.{
  stored, Before, Stopped, begun, step-EndsWell,
}
use dark_kitchen_orchestrato.Engine.AgentStep.Replay.{
  Finished, done, step_unread, step_run, step_replayed,
}

module _ {V C : Type 0} (harness : Harness V C) (role call_key : String) (j : Journal V C)
    (aborts : Aborts) (policy : Option RetryPolicy) where
  -- The journal of a step that is concluded without a result.
  cleared :
      (k : Journal V C) (i : String)
      → get i k ≡ get i j
      → (get_in_flight call_key (clear_in_flight call_key k) ≡ none)
        × (get i (clear_in_flight call_key k) ≡ get i j)
  cleared k i e = (
    ground (arith, get_in_flight-clear call_key call_key k, eq_iff call_key call_key),
    get-clear call_key i k ∙ e,
  )

  threw_journal :
      (x : Ended (Step V C) AgentError (AgentCallOutput V)) (e : AgentError) (i : String)
      → Finished harness role call_key j aborts policy x.state x.outcome
      → x.outcome ≡ threw e
      → (get_in_flight call_key (conclude call_key x).journal ≡ none)
        × (get i (conclude call_key x).journal ≡ get i j)
  threw_journal x e i w q =
      let b : (Before harness role call_key j) x.state = rw q at w in
      rw q (cleared x.state.journal i (b.kept i))

  cancelled_journal :
      (x : Ended (Step V C) AgentError (AgentCallOutput V)) (i : String)
      → Finished harness role call_key j aborts policy x.state x.outcome
      → x.outcome ≡ cancelled
      → call_key ≢ i
      → (get_in_flight call_key (conclude call_key x).journal ≡ none)
        × (get i (conclude call_key x).journal ≡ get i j)
  cancelled_journal x i w q n =
      let b : (Stopped harness role call_key j) x.state = rw q at w in
      rw q (cleared x.state.journal i (b.others i n))

  -- A step that threw the error of its runner has no checkpoint left, and the results of all
  -- steps, its own included, are as they were.
  pub step_failed :
      (e : AgentError) (i : String)
      → (done harness role call_key j aborts policy).outcome ≡ threw e
      → (get_in_flight call_key (done harness role call_key j aborts policy).journal ≡ none)
        × (get i (done harness role call_key j aborts policy).journal ≡ get i j)
  step_failed y i h = elim (Bool-cases harness.reading) [
    | inl r ↦ absurd (
        no_error cancelled (λ e. absurd (cc))
          (rw (step_unread harness role call_key j aborts policy r) at h))
    | inr r ↦ elim (Option-cases (get call_key j)) [
      | inl e ↦
          let x =
            with_retry aborts (attempt harness role call_key (stored harness role call_key j))
              policy (begun harness role call_key j) in
          rw (step_run harness role call_key j aborts policy r e) (
            threw_journal x y i (step-EndsWell harness role call_key j aborts policy)
              (rw (step_run harness role call_key j aborts policy r e) at h))
      | inr (v, e) ↦ absurd (
          no_error (returned (record { role = role; result = v; call_key = call_key }))
            (λ e. absurd (cc))
            (rw (step_replayed harness role call_key j aborts policy v r e) at h))
    ]
  ]
    where
      no_error : (o : Outcome AgentError (AgentCallOutput V)) → (o ≢ threw y) → o ≡ threw y → ⊥
      no_error o f e = f e

  -- A step that is cancelled once the journal was read has no checkpoint left, and the results
  -- of all other steps are as they were.
  step_cancelled :
      (i : String)
      → harness.reading ≡ false
      → (done harness role call_key j aborts policy).outcome ≡ cancelled
      → call_key ≢ i
      → (get_in_flight call_key (done harness role call_key j aborts policy).journal ≡ none)
        × (get i (done harness role call_key j aborts policy).journal ≡ get i j)
  step_cancelled i r h n = elim (Option-cases (get call_key j)) [
    | inl e ↦
        let x =
          with_retry aborts (attempt harness role call_key (stored harness role call_key j)) policy
            (begun harness role call_key j) in
        rw (step_run harness role call_key j aborts policy r e) (
          cancelled_journal x i (step-EndsWell harness role call_key j aborts policy)
            (rw (step_run harness role call_key j aborts policy r e) at h) n)
    | inr (v, e) ↦
        absurd (differ (rw (step_replayed harness role call_key j aborts policy v r e) at h))
  ]
    where
      differ :
          {a : AgentCallOutput V}
          → ◌≡◌ {A = Outcome AgentError (AgentCallOutput V)} (returned a) cancelled
          → ⊥
      differ e = absurd (cc)
