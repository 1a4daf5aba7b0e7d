-- ===== src/Engine/Retry/Rule.antt =====
-- The rule for retried functions: `P` before every attempt, `Q` after a cancellation, and `R` when
-- an attempt returns.
use dark_kitchen_orchestrato.Prelude.{
  ℕ, zero, suc, ◌-◌, Bool, true, false, ltb, ◌&&◌, Option, none, some, List, [], ◌∷◌, ◌++◌,
}
use dark_kitchen_orchestrato.Engine.Retry.{
  Outcome, returned, threw, cancelled, misconfigured, RetryPolicy, Aborts, Progress, retry_event,
  error_event, rethrown, Ended, finish, max_attempts_of, delay_of, settle, attempt_once, retry_loop,
  with_retry,
}

module _ {S E A : Type 0} (P Q : S → Type 0) (R : S → A → Type 0) where
  abbrev pub Ensures : S → Outcome E A → Type 0
  Ensures s (returned a) = R s a
  Ensures s cancelled = Q s
  Ensures s _ = P s

  abbrev pub EndsWell : Ended S E A → Type 0
  EndsWell x = Ensures x.state x.outcome

  ensured : (s : S) (e : Option E) → P s → Ensures s (rethrown e)
  ensured s (some e) h = h
  ensured s none h = h

  on_test :
      (b : Bool) (x y : Ended S E A)
      → EndsWell x
      → EndsWell y
      → EndsWell (elim b [ true ↦ x | false ↦ y ])
  on_test true x y h k = h
  on_test false x y h k = k

  module _ (aborts : Aborts) (fn : ℕ → S → S × Outcome E A)
      (keeps : (n : ℕ) (s : S) → P s → Ensures (fn n s).0 (fn n s).1) (weaken : (s : S) → P s → Q s)
      (d : ℕ) where
    settle-EndsWell :
        (n : ℕ) (events : List (Progress E)) (k : S → Option E → Ended S E A) (s : S)
        (o : Outcome E A)
        → Ensures s o
        → ((s' : S) (e : Option E) → P s' → EndsWell (k s' e))
        → EndsWell (settle aborts fn d n events k s o)
    unfolding settle
    settle-EndsWell n events k s (threw e) h f =
        on_test (aborts.after n) (finish aborts fn d s n events cancelled) (k s (some e))
          (weaken s h) (f s (some e) h)
    settle-EndsWell n events k s (returned a) h f = h
    settle-EndsWell n events k s cancelled h f = h
    settle-EndsWell n events k s misconfigured h f =
        on_test (aborts.after n) (finish aborts fn d s n events cancelled) (k s none) (weaken s h)
          (f s none h)

    attempt_once-EndsWell :
        (n : ℕ) (events : List (Progress E)) (k : S → Option E → Ended S E A) (s : S)
        → P s
        → ((s' : S) (e : Option E) → P s' → EndsWell (k s' e))
        → EndsWell (attempt_once aborts fn d n events s k)
    unfolding attempt_once
    attempt_once-EndsWell n events k s h f =
        on_test (aborts.before n) (finish aborts fn d s (n - 1) events cancelled)
          (settle aborts fn d n events k (fn n s).0 (fn n s).1) (weaken s h)
          (settle-EndsWell n events k (fn n s).0 (fn n s).1 (keeps n s h) f)

    retry_loop-EndsWell :
        (left n : ℕ) (events : List (Progress E)) (s : S)
        → P s
        → EndsWell (retry_loop aborts fn d left n events s)
    unfolding retry_loop
    retry_loop-EndsWell zero n events s h =
        attempt_once-EndsWell n events
          (λ s' e. finish aborts fn d s' n (events ++ error_event n e ∷ []) (rethrown e)) s h
          (λ s' e k. ensured s' e k)
    retry_loop-EndsWell (suc left) n events s h =
        attempt_once-EndsWell n events
          (λ s' e. elim (ltb 0 d && aborts.delaying n) [
            | true ↦ finish aborts fn d s' n (events ++ retry_event n e ∷ []) cancelled
            | false ↦ retry_loop aborts fn d left (suc n) (events ++ retry_event n e ∷ []) s'
          ])
          s h
          (λ s' e k.
            on_test (ltb 0 d && aborts.delaying n)
              (finish aborts fn d s' n (events ++ retry_event n e ∷ []) cancelled)
              (retry_loop aborts fn d left (suc n) (events ++ retry_event n e ∷ []) s')
              (weaken s' k)
              (retry_loop-EndsWell left (suc n) (events ++ retry_event n e ∷ []) s' k))

  pub with_retry-EndsWell :
      (aborts : Aborts) (fn : ℕ → S → S × Outcome E A) (policy : Option RetryPolicy) (s : S)
      → ((n : ℕ) (t : S) → P t → Ensures (fn n t).0 (fn n t).1)
      → ((t : S) → P t → Q t)
      → P s
      → EndsWell (with_retry aborts fn policy s)
  unfolding with_retry
  with_retry-EndsWell aborts fn policy s keeps weaken h = go (max_attempts_of policy)
    where
      go :
          (m : ℕ)
          → EndsWell (elim m [
            | zero ↦ record { state = s; events = []; calls = 0; outcome = misconfigured }
            | suc left ↦ retry_loop aborts fn (delay_of policy) left 1 [] s
          ])
      go zero = h
      go (suc left) = retry_loop-EndsWell aborts fn keeps weaken (delay_of policy) left 1 [] s h
