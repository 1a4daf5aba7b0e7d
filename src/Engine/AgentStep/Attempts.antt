-- ===== src/Engine/AgentStep/Attempts.antt =====
-- What every attempt of a step leaves of the journal and of what it offered to runners.
use dark_kitchen_orchestrato.Prelude.{
  ℕ, String, ◌≡◌, ◌≢◌, refl, ◌∙◌, true, false, Bool-cases, Option, none, some, inl, inr, List, [],
  ◌∷◌, ◌++◌, arith, eq_iff, test_of_ne, All, All-append,
}
use dark_kitchen_orchestrato.Engine.Journal.{Journal, get, set, get_in_flight, mark_in_flight}
use dark_kitchen_orchestrato.Engine.Journal.Laws.{get-set, get_in_flight-clear, get-clear, get-mark}
use dark_kitchen_orchestrato.Engine.Retry.{threw, cancelled, RetryPolicy, Aborts, with_retry}
use dark_kitchen_orchestrato.Engine.Retry.Rule.{Ensures, EndsWell, with_retry-EndsWell}
use dark_kitchen_orchestrato.Engine.AgentStep.{
  HarnessError, AgentCallOutput, Harness, Step, Resolved, runner, unresolved, stopped, Ran, late,
  gave, failed, aborted, mark_all, clear_if, resume_checkpoint, after_run, attempt, agent_error,
}

-- The first runner is offered `stored`, those after it nothing.
abbrev pub OffersOnce {ℓ} : {C : Type ℓ} → Option C → List (Option C) → Type ℓ
OffersOnce stored [] = Unit
OffersOnce stored (o ∷ os) = (o ≡ stored) × All (λ x. x ≡ none) os

module _ {V C : Type 0} (harness : Harness V C) (role call_key : String) (j : Journal V C) where
  abbrev pub stored : Option C
  stored = get_in_flight call_key j

  -- Before every attempt: the completed steps are as they were.
  pub record Before (s : Step V C) : Type 0 where
    pub kept : (i : String) → get i s.journal ≡ get i j
    pub fresh : s.consumed ≡ false → s.offers ≡ []
    pub begun : s.consumed ≡ true → s.offers ≢ []
    pub once : OffersOnce stored s.offers

  -- When an attempt returns.
  pub record After (s : Step V C) (a : AgentCallOutput V) : Type 0 where
    pub recorded : get call_key s.journal ≡ some a.result
    pub others : (i : String) → call_key ≢ i → get i s.journal ≡ get i j
    pub cleared : get_in_flight call_key s.journal ≡ none
    pub once : OffersOnce stored s.offers
    pub named : (a.role ≡ role) × (a.call_key ≡ call_key)

  -- When the step is cancelled: its own result may be recorded, those of others are as they were.
  pub record Stopped (s : Step V C) : Type 0 where
    pub others : (i : String) → call_key ≢ i → get i s.journal ≡ get i j
    pub once : OffersOnce stored s.offers

  Stopped-of : (s : Step V C) → Before s → Stopped s
  Stopped-of s b = record { others = λ i n. b.kept i; once = b.once }

  get-mark_all :
      (cs : List C) (i : String) (k : Journal V C)
      → get i (mark_all harness role call_key stored cs k) ≡ get i k
  unfolding mark_all
  get-mark_all [] i k = refl
  get-mark_all (c ∷ cs) i k =
      get-mark_all cs i (mark_in_flight call_key c k) ∙ get-mark call_key i c k

  get-clear_if :
      (o : Option C) (i : String) (k : Journal V C)
      → get i (clear_if harness role call_key stored o k) ≡ get i k
  get-clear_if none i k = refl
  get-clear_if (some c) i k = get-clear call_key i k

  OffersOnce-next :
      (s : Step V C)
      → Before s
      → OffersOnce stored (s.offers ++ resume_checkpoint harness role call_key stored s ∷ [])
  OffersOnce-next s b = elim (Bool-cases s.consumed) [
    | inl e ↦ rw e (later s.offers (b.begun e) b.once)
    | inr e ↦ rw (e, b.fresh e) (refl, tt)
  ]
    where
      later :
          (os : List (Option C))
          → os ≢ []
          → OffersOnce stored os
          → OffersOnce stored (os ++ none ∷ [])
      later [] n h = absurd (n refl)
      later (o ∷ os) n h = (h.0, All-append (λ x. x ≡ none) os (none ∷ []) h.1 (refl, tt))

  -- The variables when the runner has ended, whatever it ended in.
  abbrev ran : ℕ → Step V C → Step V C
  ran n s =
      let resume = resume_checkpoint harness role call_key stored s in
      record {
        journal =
            mark_all harness role call_key stored (harness.run n resume).0
              (clear_if harness role call_key stored resume s.journal);
        consumed = true;
        offers = s.offers ++ resume ∷ [];
      }

  ran-Before : (n : ℕ) (s : Step V C) → Before s → Before (ran n s)
  ran-Before n s b = record {
    kept = λ i.
        let resume = resume_checkpoint harness role call_key stored s in
        get-mark_all (harness.run n resume).0 i
          (clear_if harness role call_key stored resume s.journal)
        ∙ get-clear_if resume i s.journal
        ∙ b.kept i;
    fresh = λ e. absurd (cc);
    begun = λ e. not_nil s.offers _;
    once = OffersOnce-next s b;
  }
    where
      not_nil : (os : List (Option C)) (o : Option C) → os ++ o ∷ [] ≢ []
      not_nil [] o e = cc
      not_nil (x ∷ os) o e = cc

  after_run-Ensures :
      (s : Step V C) (r : Ran V)
      → Before s
      → Ensures Before Stopped After
          (after_run harness role call_key stored s r).0
          (after_run harness role call_key stored s r).1
  unfolding after_run
  after_run-Ensures s (gave v) b = record {
    recorded =
        get-clear call_key call_key (set call_key v s.journal)
        ∙ ground (arith, get-set call_key call_key v s.journal, eq_iff call_key call_key);
    others = λ i n.
        get-clear call_key i (set call_key v s.journal)
        ∙ rw (get-set, test_of_ne call_key i n) (b.kept i);
    cleared = ground (
      arith,
      get_in_flight-clear call_key call_key (set call_key v s.journal),
      eq_iff call_key call_key,
    );
    once = b.once;
    named = (refl, refl);
  }
  after_run-Ensures s (failed e) b = b
  after_run-Ensures s aborted b = Stopped-of s b
  after_run-Ensures s (late v) b = record {
    others = λ i n. rw (get-set, test_of_ne call_key i n) (b.kept i);
    once = b.once;
  }

  attempt_runs :
      (n : ℕ) (s : Step V C)
      → harness.resolve n ≡ runner
      → attempt harness role call_key stored n s
        ≡ after_run harness role call_key stored
            (ran n s)
            (harness.run n (resume_checkpoint harness role call_key stored s)).1
  unfolding attempt
  attempt_runs n s e = rw (e, attempt)

  attempt_unresolved :
      (n : ℕ) (s : Step V C) (x : HarnessError)
      → harness.resolve n ≡ unresolved x
      → attempt harness role call_key stored n s ≡ (s, threw (agent_error role call_key x))
  unfolding attempt
  attempt_unresolved n s x e = rw (e, attempt)

  attempt_stopped :
      (n : ℕ) (s : Step V C)
      → harness.resolve n ≡ stopped
      → attempt harness role call_key stored n s ≡ (s, cancelled)
  unfolding attempt
  attempt_stopped n s e = rw (e, attempt)

  attempt-Ensures :
      (n : ℕ) (s : Step V C)
      → Before s
      → Ensures Before Stopped After
          (attempt harness role call_key stored n s).0
          (attempt harness role call_key stored n s).1
  attempt-Ensures n s b = go (harness.resolve n) refl
    where
      go :
          (x : Resolved)
          → harness.resolve n ≡ x
          → Ensures Before Stopped After
              (attempt harness role call_key stored n s).0
              (attempt harness role call_key stored n s).1
      go runner e =
          let resume = resume_checkpoint harness role call_key stored s in
          rw (attempt_runs n s e)
            (after_run-Ensures (ran n s) (harness.run n resume).1 (ran-Before n s b))
      go (unresolved x) e = rw (attempt_unresolved n s x e) b
      go stopped e = rw (attempt_stopped n s e) (Stopped-of s b)

  abbrev pub begun : Step V C
  begun = record { journal = j; consumed = false; offers = [] }

  pub step-EndsWell :
      (aborts : Aborts) (policy : Option RetryPolicy)
      → EndsWell Before Stopped After
          (with_retry aborts (attempt harness role call_key stored) policy begun)
  step-EndsWell aborts policy =
      with_retry-EndsWell Before Stopped After aborts (attempt harness role call_key stored) policy
        begun attempt-Ensures Stopped-of
        (record { kept = λ i. refl; fresh = λ e. refl; begun = λ e. absurd (cc); once = tt })
