-- ===== src/Runtime/Interventions/AskHuman/Answered.antt =====
-- The wait of `askHuman` ends, and does not miss an answer that is there by the deadline.
use native.Mathlib.Decide.{dec_lt}
use dark_kitchen_orchestrato.Prelude.{
  ℕ, zero, suc, ◌+◌, ◌-◌, ◌≤◌, ◌<◌, ◌≡◌, ◌≢◌, ap, ◌∙◌, String, false, or_else, ◌==◌, Result, ok,
  err, Bool-cases, Option, none, some, inl, inr, ltb, leb, arith,
}
use dark_kitchen_orchestrato.Runtime.Intervention.{
  Intervention, InterventionError, trim, text_length, if_any,
}
use dark_kitchen_orchestrato.Runtime.Interventions.{Interventions, create}
use dark_kitchen_orchestrato.Runtime.Interventions.AskHuman.{
  AskHumanResult, AskError, AskHumanOptions, question_input, trimmed, await_answer, ask_human, min,
  settled_answer, poll,
}

test_of_le : {a b : ℕ} → a ≤ b → ltb b a ≡ false
test_of_le {a} {b} h = ground arith

module _ (extract_answer : String → String) (record_at : ℕ → Option Intervention) (lateness : ℕ → ℕ)
    (id : String) (poll_interval deadline : ℕ) where
  -- The time of the next poll.
  abbrev next_time : ℕ → ℕ → ℕ
  next_time n t = t + min poll_interval (deadline - t) + lateness n

  abbrev polled : ℕ → ℕ → ℕ → Option AskHumanResult
  polled = poll extract_answer record_at lateness id poll_interval deadline

  test_of_lt : {a b : ℕ} → a < b → leb b a ≡ false
  test_of_lt {a} {b} h = ground arith

  closer : (n t : ℕ) → 0 < poll_interval → t < deadline → deadline - next_time n t < deadline - t
  closer n t h k = ground arith

  waits :
      (fuel n t : ℕ) (i : Intervention)
      → record_at t ≡ some i
      → settled_answer extract_answer i i.status ≡ none
      → t < deadline
      → polled (suc fuel) n t ≡ polled fuel (suc n) (next_time n t)
  unfolding poll
  waits fuel n t i e u h = rw (e, u, test_of_lt h, poll)

  -- While there is fuel for each millisecond to the deadline the loop does not run out of it.
  poll_total : (fuel n t : ℕ) → 0 < poll_interval → deadline - t < fuel → polled fuel n t ≢ none
  unfolding poll
  poll_total zero n t p h e = absurd (omega arith)
  poll_total (suc fuel) n t p h e =
      ground (arith, poll_total fuel (suc n) (next_time n t) p, closer n t p)

  -- If the record is there and unsettled until time `d`, is settled from then on, and `d` is not
  -- after the deadline, the loop returns what the settled record answers.
  poll_answers :
      (d : ℕ) (c : Intervention) (x : AskHumanResult)
      → ((u : ℕ)
          → u < d
          → (i : Intervention) × (record_at u ≡ some i)
            × (settled_answer extract_answer i i.status ≡ none))
      → ((u : ℕ) → d ≤ u → record_at u ≡ some c)
      → settled_answer extract_answer c c.status ≡ some x
      → d ≤ deadline
      → 0 < poll_interval
      → (fuel n t : ℕ) → deadline - t < fuel
      → polled fuel n t ≡ some x
  unfolding poll
  poll_answers d c x open_until settled_from a l p zero n t h = absurd (omega arith)
  poll_answers d c x open_until settled_from a l p (suc fuel) n t h = elim (dec_lt t d) [
    | yes k ↦
        let (i, e, u) = open_until t k in
        waits fuel n t i e u (omega arith)
        ∙ poll_answers d c x open_until settled_from a l p fuel (suc n) (next_time n t)
            (omega (arith, closer n t p (omega arith)))
    | no k ↦ rw (settled_from t (omega arith), a, poll)
  ]

module _ (id_for_key redact stable_hash extract_answer : String → String)
    (record_at : Interventions → ℕ → String → Option Intervention) (lateness : ℕ → ℕ)
    (question : String) (options : AskHumanOptions) (drawn drawn_id now : String) (t : ℕ)
    (s : Interventions) where
  abbrev pub asked : Interventions × Result AskError (Option AskHumanResult)
  asked =
      ask_human id_for_key redact stable_hash extract_answer record_at lateness question options
        drawn drawn_id now t s

  abbrev pub timeout : ℕ
  timeout = or_else options.timeout_ms 1800000

  abbrev pub interval : ℕ
  interval = or_else options.poll_interval_ms 1000

  -- The record that the question makes or joins.
  abbrev pub made : Interventions × Result InterventionError Intervention
  made =
      create id_for_key redact
        (question_input stable_hash (trim question)
          (or_else (if_any (trimmed options.request_id)) drawn))
        drawn_id now s

  -- The question and the options pass the checks.
  pub record IsAllowed : Type 0 where
    pub filled : (trim question == "") ≡ false
    pub short : text_length (trim question) ≤ 16000
    pub paced : 0 < interval

  -- What the store holds of a record from the time of the call: unsettled until `d`, and then `c`.
  pub record SettlesAt (d : ℕ) (c i : Intervention) (r : Interventions) : Type 0 where
    pub open_until :
        (u : ℕ)
        → u < d
        → (j : Intervention) × (record_at r u i.id ≡ some j)
          × (settled_answer extract_answer j j.status ≡ none)
    pub settled_from : (u : ℕ) → d ≤ u → record_at r u i.id ≡ some c
    pub in_time : d ≤ t + timeout

  -- An allowed question waits for the record that it makes.
  asked_allowed :
      IsAllowed
      → asked
        ≡ await_answer id_for_key redact stable_hash extract_answer record_at lateness timeout
            interval t made
  unfolding ask_human
  asked_allowed v = rw (v.filled, test_of_le v.short, test_of_le v.paced)

  -- An allowed question whose record is unsettled until a time that is not after the deadline, and
  -- settled from then on, is answered with what that record says, however late the timers fire.
  pub ask_human_answers :
      (d : ℕ) (c i : Intervention) (r : Interventions) (x : AskHumanResult)
      → IsAllowed
      → made ≡ (r, ok i)
      → SettlesAt d c i r
      → settled_answer extract_answer c c.status ≡ some x
      → asked ≡ (r, ok (some x))
  unfolding await_answer
  ask_human_answers d c i r x v m w a =
      asked_allowed v
      ∙ ap
          (await_answer id_for_key redact stable_hash extract_answer record_at lateness timeout
            interval t)
          m
      ∙ ap (λ o. (r, ok o))
          (poll_answers extract_answer (λ u. record_at r u i.id) lateness i.id interval
            (t + timeout) d c x w.open_until w.settled_from a w.in_time v.paced (suc timeout) 0 t
            (omega arith))

  await_answer-ends :
      (x : Interventions × Result InterventionError Intervention)
      → 0 < interval
      → (await_answer id_for_key redact stable_hash extract_answer record_at lateness timeout
          interval t x).1
        ≢ ok none
  unfolding await_answer
  await_answer-ends (r, err e) p h = absurd (cc)
  await_answer-ends (r, ok i) p h =
      poll_total extract_answer (λ u. record_at r u i.id) lateness i.id interval (t + timeout)
        (suc timeout) 0 t p (omega arith) (cc h)

  -- Whatever the store answers, the call ends.
  ask_human_ends : asked.1 ≢ ok none
  unfolding ask_human
  ask_human_ends = elim (Bool-cases (trim question == "")) [
    | inl a ↦ rw a (λ h. cc h)
    | inr a ↦ elim (Bool-cases (ltb 16000 (text_length (trim question)))) [
      | inl b ↦ rw (a, b) (λ h. cc h)
      | inr b ↦ elim (Bool-cases (ltb interval 1)) [
        | inl c ↦ rw (a, b, c) (λ h. cc h)
        | inr c ↦ rw (a, b, c) (await_answer-ends made (ground arith))
      ]
    ]
  ]
