-- ===== src/Workflows/Default/Rules.antt =====
-- Rules for what a workflow of packages/workflows/src/default.ts leaves on the trace.
use dark_kitchen_orchestrato.Prelude.{
  ℕ, suc, zero, ◌≤◌, arith, String, ◌≡◌, refl, Bool, true, false, Option, or_else, ◌∷◌, leb, Result,
  ok, err, if◌then◌else◌, Bool-cases, inl, inr,
}
use dark_kitchen_orchestrato.Prelude.Stateful.{continue}
use dark_kitchen_orchestrato.Workflows.Verdicts.{JsonApi, Value}
use dark_kitchen_orchestrato.Workflows.Default.{
  Host, M, Trace, Failure, normalize_loop_bound, ◌>>=◌, pure, throw, called, agent, answer_of,
}
use dark_kitchen_orchestrato.Workflows.Default.Stages.{
  ReviewNames, phase_of, review_once, run_review_loop, verify_once, verification_cycles,
  run_verification_loop, run_repository_validation,
}

-- The trace of an error is such, and a value with its trace is such.
abbrev pub Post :
    {A : Type 0} → (Trace → Type 0) → (A → Trace → Type 0) → Result Failure A × Trace → Type 0
Post Q P (ok a, t) = P a t
Post Q P (err e, t) = Q t

Post-continue :
    {A B : Type 0} (Q : Trace → Type 0) (P : A → Trace → Type 0) (R : B → Trace → Type 0)
    (f : A → M B) (x : Result Failure A × Trace)
    → Post Q P x
    → ((a : A) (u : Trace) → P a u → Post Q R (f a u))
    → Post Q R (continue f x)
Post-continue Q P R f (ok a, t) h rest = rest a t h
Post-continue Q P R f (err e, t) h rest = h

-- From a trace that is `S`, a value comes with a trace that is `P`, and an error with one that is `Q`.
pub record Ensures {A : Type 0} (m : M A) (S Q : Trace → Type 0) (P : A → Trace → Type 0)
    : Type 0 where
  pub run : (t : Trace) → S t → Post Q P (m t)

pub bind-Ensures :
    {A B : Type 0} {m : M A} {f : A → M B} {S Q : Trace → Type 0} {P : A → Trace → Type 0}
    {R : B → Trace → Type 0}
    → Ensures m S Q P
    → ((a : A) → Ensures (f a) (P a) Q R)
    → Ensures (m >>= f) S Q R
unfolding ◌>>=◌
bind-Ensures {m = m} {f = f} {Q = Q} {P = P} {R = R} k l = record {
  run = λ t h. Post-continue Q P R f (m t) (k.run t h) (λ a u i. (l a).run u i);
}

pub pure-Ensures :
    {A : Type 0} {S Q : Trace → Type 0} {P : A → Trace → Type 0} (a : A)
    → ((t : Trace) → S t → P a t)
    → Ensures (pure a) S Q P
unfolding pure
pure-Ensures a h = record { run = h }

pub throw-Ensures :
    {A : Type 0} {S Q : Trace → Type 0} {P : A → Trace → Type 0} (e : Failure)
    → ((t : Trace) → S t → Q t)
    → Ensures (throw {A = A} e) S Q P
unfolding throw
throw-Ensures e h = record { run = h }

pub if-Ensures :
    {A : Type 0} {m n : M A} {S Q : Trace → Type 0} {P : A → Trace → Type 0} (b : Bool)
    → (b ≡ true → Ensures m S Q P)
    → (b ≡ false → Ensures n S Q P)
    → Ensures (if b then m else n) S Q P
if-Ensures true k l = k refl
if-Ensures false k l = l refl

-- A fact at the start may be used throughout.
pub fact-Ensures :
    {A F : Type 0} {m : M A} {S Q : Trace → Type 0} {P : A → Trace → Type 0}
    → (F → Ensures m S Q P)
    → Ensures m (λ t. F × S t) Q P
fact-Ensures k = record { run = λ t h. (k h.0).run t h.1 }

-- The limits of the loops are at most ten, and looking at them leaves the trace.
pub limit-Ensures :
    (S Q : Trace → Type 0) (value : Option ℕ) (fallback : ℕ)
    → ((t : Trace) → S t → Q t)
    → Ensures (normalize_loop_bound value fallback) S Q (λ n t. (n ≤ 10) × S t)
unfolding normalize_loop_bound
limit-Ensures S Q value fallback weaken = record { run = λ t h. limited t h }
  where
    limited :
        (t : Trace) → S t → Post Q (λ n u. (n ≤ 10) × S u) (normalize_loop_bound value fallback t)
    limited t h = elim (Bool-cases (leb (or_else value fallback) 10)) [
      | inl e ↦ rw e (ground (arith, e), h)
      | inr e ↦ rw e (weaken t h)
    ]

-- The call of an agent gives its answer, with the call on the trace.
pub agent-Ensures :
    (host : Host) (S Q : Trace → Type 0) (P : Value → Trace → Type 0) (phase role : String)
    → ((t : Trace) (e : String) → S t → Q (called phase role (err e) ∷ t))
    → ((t : Trace) (v : Value) → S t → P v (called phase role (ok v) ∷ t))
    → Ensures (agent host phase role) S Q P
unfolding agent
agent-Ensures host S Q P phase role bad good = record {
  run = λ t h. answered t (host.ask t phase role) h;
}
  where
    answered :
        (t : Trace) (a : Result String Value)
        → S t
        → Post Q P (answer_of a, called phase role a ∷ t)
    answered t (ok v) h = good t v h
    answered t (err e) h = bad t e h

-- What every call of an agent keeps, the stages keep.
module _ (host : Host) (json : JsonApi) (I : Trace → Type 0)
    (call : (phase role : String) (a : Result String Value) (t : Trace)
      → I t
      → I (called phase role a ∷ t)) where
  abbrev pub Keeps : {A : Type 0} → M A → Type 0
  Keeps m = Ensures m I I (λ a. I)

  pub agent-Keeps : (phase role : String) → Keeps (agent host phase role)
  agent-Keeps phase role =
      agent-Ensures host I I (λ a. I) phase role (λ t e h. call phase role (err e) t h)
        (λ t v h. call phase role (ok v) t h)

  review_once-Keeps : (names : ReviewNames) (cycle : ℕ) → Keeps (review_once host json names cycle)
  review_once-Keeps names cycle =
      bind-Ensures (agent-Keeps (phase_of host json names.review_phase cycle) names.reviewer_role)
        (λ r. pure-Ensures _ (λ t h. h))

  pub run_review_loop-Keeps :
      (names : ReviewNames) (left cycle : ℕ) → Keeps (run_review_loop host json names left cycle)
  unfolding run_review_loop
  run_review_loop-Keeps names zero cycle = review_once-Keeps names cycle
  run_review_loop-Keeps names (suc left) cycle =
      bind-Ensures (review_once-Keeps names cycle) (λ latest.
        if-Ensures latest.passed (λ e. pure-Ensures _ (λ t h. h))
          (λ e.
            bind-Ensures (agent-Keeps (phase_of host json names.fix_phase cycle) "fixer")
              (λ ignored. run_review_loop-Keeps names left (suc cycle))))

  verify_once-Keeps : (cycle : ℕ) → Keeps (verify_once host json cycle)
  verify_once-Keeps cycle =
      bind-Ensures (agent-Keeps (phase_of host json "verification" cycle) "verifier")
        (λ r. pure-Ensures _ (λ t h. h))

  verification_cycles-Keeps : (left cycle : ℕ) → Keeps (verification_cycles host json left cycle)
  unfolding verification_cycles
  verification_cycles-Keeps zero cycle = verify_once-Keeps cycle
  verification_cycles-Keeps (suc left) cycle = bind-Ensures (verify_once-Keeps cycle) (λ latest.
      if-Ensures latest.passed (λ e. pure-Ensures _ (λ t h. h))
        (λ e.
          bind-Ensures (agent-Keeps (phase_of host json "verification-fix" cycle) "fixer")
            (λ ignored. verification_cycles-Keeps left (suc cycle))))

  pub run_verification_loop-Keeps :
      (cycles : ℕ) (delay : Option ℕ) → Keeps (run_verification_loop host json cycles delay)
  unfolding run_verification_loop
  run_verification_loop-Keeps cycles delay =
      if-Ensures (leb (or_else delay 0) 3600000) (λ e. verification_cycles-Keeps cycles 0)
        (λ e. throw-Ensures _ (λ t h. h))

  pub run_repository_validation-Keeps : Keeps (run_repository_validation host json)
  unfolding run_repository_validation
  run_repository_validation-Keeps =
      bind-Ensures (agent-Keeps "repository-validation" "repository-tester")
        (λ r. pure-Ensures _ (λ t h. h))
