-- ===== src/Engine/Body/Replay.antt =====
-- A workflow body that has run is replayed from its journal.
use Prim.Native.String.{◌++◌ as append}
use dark_kitchen_orchestrato.Prelude.{
  ℕ, suc, String, ◌≡◌, refl, ap, ◌∙◌, true, false, Bool-cases, Option, none, some, Option-cases,
  inl, inr, List, [], length, get_elem?, set, arith,
}
use dark_kitchen_orchestrato.Engine.Retry.{
  Outcome, returned, threw, cancelled, misconfigured, RetryPolicy,
}
use dark_kitchen_orchestrato.Engine.Journal.{Journal, get}
use dark_kitchen_orchestrato.Engine.AgentStep.{AgentError, AgentCallOutput, Stepped}
use dark_kitchen_orchestrato.Engine.AgentStep.Replay.{done, step_own, step_kept, step_replayed}
use dark_kitchen_orchestrato.Engine.Keys.{WorkflowBuilder, next_key}
use dark_kitchen_orchestrato.Engine.Body.{
  Body, ends, calls_agent, enters_phase, Played, Outside, is_missing, proceed, after_agent, agent,
  play,
}

module _ {V C R : Type 0} where
  -- A body that returns got an answer at its first call.
  proceed-Returns :
      (j : Journal V C) (n : ℕ) (o : Outcome AgentError (AgentCallOutput V))
      (rest : AgentCallOutput V → Played V C R) (r : R)
      → (proceed j n o rest).outcome ≡ returned r
      → (a : AgentCallOutput V) × (o ≡ returned a)
        × ((rest a).outcome ≡ returned r)
        × ((proceed j n o rest).journal ≡ (rest a).journal)
  unfolding proceed
  proceed-Returns j n (returned a) rest r h = (a, refl, h, refl)
  proceed-Returns j n (threw e) rest r h = absurd (cc)
  proceed-Returns j n cancelled rest r h = absurd (cc)
  proceed-Returns j n misconfigured rest r h = absurd (cc)

abbrev key_of : (ℕ → String) → String → WorkflowBuilder → WorkflowBuilder × String
key_of numeral role b = next_key numeral (append "agent:" role) b

module _ (numeral : ℕ → String) (trim : String → String) {V C : Type 0} where
  module _ (world : ℕ → Outside V C) (n : ℕ) (j : Journal V C) (role : String)
      (policy : Option RetryPolicy) (b : WorkflowBuilder) where
    -- The step of an agent call.
    abbrev step_of : Stepped V C
    step_of = done (world n).harness role (key_of numeral role b).1 j (world n).aborts policy

    agent_missing :
        is_missing trim role ≡ true → agent numeral trim (world n) role policy j b ≡ (b, none)
    unfolding agent
    agent_missing t = rw (t, agent)

    agent_given :
        is_missing trim role ≡ false
        → agent numeral trim (world n) role policy j b ≡ ((key_of numeral role b).0, some step_of)
    unfolding agent
    agent_given t = rw (t, agent)

  module _ {R : Type 0} (world : ℕ → Outside V C) (n : ℕ) (bs : List WorkflowBuilder)
      (j : Journal V C) (i : ℕ) (role : String) (policy : Option RetryPolicy)
      (rest : AgentCallOutput V → Body V R) where
    abbrev after_call : WorkflowBuilder → AgentCallOutput V → Played V C R
    after_call b a =
        play numeral trim world (rest a) (suc n) (set bs i (key_of numeral role b).0)
          (step_of world n j role policy b).journal

    play-calls :
        (b : WorkflowBuilder)
        → get_elem? bs i ≡ some b
        → is_missing trim role ≡ false
        → play numeral trim world (calls_agent i role policy rest) n bs j ≡ (
            let s = step_of world n j role policy b in
            proceed s.journal (length s.offers) s.outcome (after_call b))
    unfolding play after_agent
    play-calls b e t =
        rw (e, play)
          (ap
            (λ x.
              after_agent j x λ b' j' a. play numeral trim world (rest a) (suc n) (set bs i b') j')
            (agent_given world n j role policy b t))

    -- What a body needs to get past an agent call.
    play-Returns :
        (r : R)
        → (play numeral trim world (calls_agent i role policy rest) n bs j).outcome ≡ returned r
        → (b : WorkflowBuilder) × (get_elem? bs i ≡ some b) × (is_missing trim role ≡ false)
    unfolding play after_agent
    play-Returns r h = elim (Option-cases (get_elem? bs i)) [
      | inl e ↦ absurd (ground arith)
      | inr (b, e) ↦ elim (Bool-cases (is_missing trim role)) [
        | inl t ↦ absurd (ground (arith, agent_missing world n j role policy b t))
        | inr t ↦ (b, e, t)
      ]
    ]

    -- A body that returns gets past its agent call.
    past_call :
        (r : R)
        → (play numeral trim world (calls_agent i role policy rest) n bs j).outcome ≡ returned r
        → (b : WorkflowBuilder) × (get_elem? bs i ≡ some b)
          × (is_missing trim role ≡ false)
          × (a : AgentCallOutput V) × ((step_of world n j role policy b).outcome ≡ returned a)
          × ((after_call b a).outcome ≡ returned r)
          × ((play numeral trim world (calls_agent i role policy rest) n bs j).journal
              ≡ (after_call b a).journal)
    past_call r h =
        let (b, e, t) = play-Returns r h in
        let s = step_of world n j role policy b in
        let (a, o, k, q) =
          proceed-Returns s.journal (length s.offers) s.outcome (after_call b) r
            (rw (play-calls b e t) at h) in
        (b, e, t, a, o, k, ap (λ (p : Played V C R). p.journal) (play-calls b e t) ∙ q)

  module _ {R : Type 0} (world : ℕ → Outside V C) where
    -- A body that returns overwrites no result that the journal had.
    play_kept :
        (body : Body V R) (n : ℕ) (bs : List WorkflowBuilder) (j : Journal V C) (r : R) (k : String)
        (v : V)
        → (play numeral trim world body n bs j).outcome ≡ returned r
        → get k j ≡ some v
        → get k (play numeral trim world body n bs j).journal ≡ some v
    unfolding play
    play_kept (ends x) n bs j r k v h e = e
    play_kept (calls_agent i role policy rest) n bs j r k v h e =
        let (b, q, t, a, o, z, w) = past_call world n bs j i role policy rest r h in
        ap (get k) w
        ∙ play_kept (rest a) (suc n) (set bs i (key_of numeral role b).0)
            (step_of world n j role policy b).journal r k v z
            (step_kept (world n).harness role (key_of numeral role b).1 j (world n).aborts policy a
              k v o e)
    play_kept (enters_phase i name rest) n bs j r k v h e = elim (Option-cases (get_elem? bs i)) [
      | inl q ↦ absurd (ground arith)
      | inr (b, q) ↦ rw (q, play) (play_kept rest n _ j r k v (rw (q, play) at h) e)
    ]

  module _ (world world' : ℕ → Outside V C)
      (reads : (n : ℕ) → (world' n).harness.reading ≡ false) where
    -- The outcome of a recorded step when it is met again.
    step_again :
        (n n' : ℕ) (j j' : Journal V C) (role : String) (policy : Option RetryPolicy)
        (b : WorkflowBuilder) (a : AgentCallOutput V)
        → (step_of world n j role policy b).outcome ≡ returned a
        → get (key_of numeral role b).1 j' ≡ some a.result
        → step_of world' n' j' role policy b
          ≡ record { journal = j'; offers = []; events = []; outcome = returned a }
    step_again n n' j j' role policy b a o e =
        let k = (key_of numeral role b).1 in
        let (r, g, p, q) = step_own (world n).harness role k j (world n).aborts policy a o in
        step_replayed (world' n').harness role k j' (world' n').aborts policy a.result (reads n') e
        ∙ ap
            (λ (x : AgentCallOutput V).
              let s : Stepped V C = record {
                journal = j';
                offers = [];
                events = [];
                outcome = returned x;
              } in
              s)
            (cc (p, q))

    play_again :
        {R : Type 0} (body : Body V R) (n n' : ℕ) (bs : List WorkflowBuilder) (j j' : Journal V C)
        (r : R)
        → (play numeral trim world body n bs j).outcome ≡ returned r
        → ((k : String) (v : V)
            → get k (play numeral trim world body n bs j).journal ≡ some v
            → get k j' ≡ some v)
        → play numeral trim world' body n' bs j'
          ≡ record { journal = j'; runs = 0; outcome = returned r }
    unfolding play
    play_again (ends x) n n' bs j j' r h sub = cc h
    play_again {R} (calls_agent i role policy rest) n n' bs j j' r h sub =
        let (b, q, t, a, o, z, w) = past_call world n bs j i role policy rest r h in
        let b' = (key_of numeral role b).0 in
        let k = (key_of numeral role b).1 in
        let s = step_of world n j role policy b in
        let own = (step_own (world n).harness role k j (world n).aborts policy a o).1 in
        let known = play_kept world (rest a) (suc n) (set bs i b') s.journal r k a.result z own in
        play-calls world' n' bs j' i role policy rest b q t
        ∙ ap
            (λ (s : Stepped V C).
              proceed s.journal (length s.offers) s.outcome
                (λ a. play numeral trim world' (rest a) (suc n') (set bs i b') s.journal))
            (step_again n n' j j' role policy b a o (sub k a.result (ap (get k) w ∙ known)))
        ∙ ap (λ (p : Played V C R). proceed {R = R} j' 0 (returned a) (λ _. p))
            (play_again (rest a) (suc n) (suc n') (set bs i b') s.journal j' r z
              (λ k v e. sub k v (ap (get k) w ∙ e)))
    play_again (enters_phase i name rest) n n' bs j j' r h sub =
        elim (Option-cases (get_elem? bs i)) [
          | inl q ↦ absurd (ground arith)
          | inr (b, q) ↦
              rw (q, play)
                (play_again rest n n' _ j j' r (rw (q, play) at h)
                  (λ k v e. sub k v (rw (q, play) e)))
        ]

    -- A workflow body that returned returns the same again when it is run from the same builders
    -- on the journal that it left, whatever the harness would do now, if the signal does not fire
    -- while the journal is read: no runner is called, and the journal stays as it is.
    pub play_replays :
        {R : Type 0} (body : Body V R) (bs : List WorkflowBuilder) (j : Journal V C) (r : R)
        → (play numeral trim world body 0 bs j).outcome ≡ returned r
        → let left = (play numeral trim world body 0 bs j).journal in
          play numeral trim world' body 0 bs left
          ≡ record { journal = left; runs = 0; outcome = returned r }
    play_replays body bs j r h = play_again body 0 0 bs j _ r h (λ k v e. e)
