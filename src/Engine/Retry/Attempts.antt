-- ===== src/Engine/Retry/Attempts.antt =====
-- The number of attempts is bounded, and an undisturbed retry ends with the first that settles.
use mathlib.Core.List.{append-nil, append_assoc}
use dark_kitchen_orchestrato.Prelude.{
  ℕ, zero, suc, ◌+◌, ◌-◌, ◌≤◌, ◌<◌, ◌≡◌, refl, ap, ◌∙◌, true, false, none, some, ltb, ◌&&◌, Option,
  List, [], ◌∷◌, ◌++◌, arith, length,
}
use dark_kitchen_orchestrato.Engine.Retry.{
  Outcome, returned, threw, cancelled, misconfigured, retry_event, error_event, rethrown,
  RetryPolicy, Aborts, Progress, step_retry, step_error, Ended, max_attempts_of, delay_of, settle,
  attempt_once, retry_loop, with_retry,
}

-- The signal never fires.
pub record IsCalm (aborts : Aborts) : Type 0 where
  pub before : (n : ℕ) → aborts.before n ≡ false
  pub after : (n : ℕ) → aborts.after n ≡ false
  pub delaying : (n : ℕ) → aborts.delaying n ≡ false

module _ {S E A : Type 0} (fn : ℕ → S → S × Outcome E A) where
  -- `Fails n s errors m t`: the attempts from `n` on, started in `s`, throw `errors` one after the
  -- other, and the next is attempt `m` in state `t`.
  pub data Fails : ℕ → S → List E → ℕ → S → Type 0 where
    start : {n : ℕ} {s : S} → Fails n s [] n s
    fail :
        {n m : ℕ} {s s' t : S} {e : E} {errors : List E}
        → fn n s ≡ (s', threw e)
        → Fails (suc n) s' errors m t
        → Fails n s (e ∷ errors) m t

  -- The events of failures that are retried.
  abbrev pub retries : ℕ → List E → List (Progress E)
  retries n [] = []
  retries n (e ∷ errors) = step_retry n e ∷ retries (suc n) errors

  module _ (aborts : Aborts) (delay_ms : ℕ) where
    calls-settle :
        (n bound : ℕ) (events : List (Progress E)) (k : S → Option E → Ended S E A) (s : S)
        (o : Outcome E A)
        → n ≤ bound
        → ((s' : S) (e : Option E) → (k s' e).calls ≤ bound)
        → (settle aborts fn delay_ms n events k s o).calls ≤ bound
    unfolding settle
    calls-settle n bound events k s (threw e) h f = ground (arith, f s (some e))
    calls-settle n bound events k s misconfigured h f = ground (arith, f s none)
    calls-settle n bound events k s _ h f = h

    calls-attempt_once :
        (n bound : ℕ) (events : List (Progress E)) (k : S → Option E → Ended S E A) (s : S)
        → n ≤ bound
        → ((s' : S) (e : Option E) → (k s' e).calls ≤ bound)
        → (attempt_once aborts fn delay_ms n events s k).calls ≤ bound
    unfolding attempt_once
    calls-attempt_once n bound events k s h f =
        ground (arith, calls-settle n bound events k (fn n s).0 (fn n s).1 h f)

    calls-retry_loop :
        (left n : ℕ) (events : List (Progress E)) (s : S)
        → (retry_loop aborts fn delay_ms left n events s).calls ≤ n + left
    unfolding retry_loop
    calls-retry_loop zero n events s =
        calls-attempt_once n (n + 0) events
          (λ s' e. record {
            state = s';
            events = events ++ error_event n e ∷ [];
            calls = n;
            outcome = rethrown e;
          })
          s (omega arith) (λ s' e. omega arith)
    calls-retry_loop (suc left) n events s =
        calls-attempt_once n (n + suc left) events
          (λ s' e. elim (ltb 0 delay_ms && aborts.delaying n) [
            | true ↦ record {
              state = s';
              events = events ++ retry_event n e ∷ [];
              calls = n;
              outcome = cancelled;
            }
            | false ↦ retry_loop aborts fn delay_ms left (suc n) (events ++ retry_event n e ∷ []) s'
          ])
          s (omega arith)
          (λ s' e.
            ground (arith, calls-retry_loop left (suc n) (events ++ retry_event n e ∷ []) s'))

  -- The function is called at most as often as the policy says, once without a policy, and never
  -- under a policy that is refused.
  calls-with_retry :
      (aborts : Aborts) (policy : Option RetryPolicy) (s : S)
      → (with_retry aborts fn policy s).calls ≤ max_attempts_of policy
  unfolding with_retry
  calls-with_retry aborts policy s =
      ground (arith, calls-retry_loop aborts (delay_of policy) (max_attempts_of policy - 1) 1 [] s)

  module _ (aborts : Aborts) (calm : IsCalm aborts) (delay_ms : ℕ) where
    retry_fails :
        (left n : ℕ) (events : List (Progress E)) (s s' : S) (e : E)
        → fn n s ≡ (s', threw e)
        → retry_loop aborts fn delay_ms (suc left) n events s
          ≡ retry_loop aborts fn delay_ms left (suc n) (events ++ step_retry n e ∷ []) s'
    unfolding retry_loop
    retry_fails left n events s s' e h =
        ground (arith, calm.before n, calm.after n, calm.delaying n)

    retry_returns :
        (left n : ℕ) (events : List (Progress E)) (s s' : S) (a : A)
        → fn n s ≡ (s', returned a)
        → retry_loop aborts fn delay_ms left n events s
          ≡ record { state = s'; events = events; calls = n; outcome = returned a }
    unfolding retry_loop
    retry_returns zero n events s s' a h = ground (arith, calm.before n)
    retry_returns (suc left) n events s s' a h = ground (arith, calm.before n)

    retry_exhausts :
        (n : ℕ) (events : List (Progress E)) (s s' : S) (e : E)
        → fn n s ≡ (s', threw e)
        → retry_loop aborts fn delay_ms 0 n events s ≡ record {
          state = s';
          events = events ++ step_error n e ∷ [];
          calls = n;
          outcome = threw e;
        }
    unfolding retry_loop
    retry_exhausts n events s s' e h = ground (arith, calm.before n, calm.after n)

    retry_chain :
        (k left n m : ℕ) (events : List (Progress E)) (s t : S) (errors : List E)
        → Fails n s errors m t
        → k ≡ length errors + left
        → retry_loop aborts fn delay_ms k n events s
          ≡ retry_loop aborts fn delay_ms left m (events ++ retries n errors) t
    retry_chain k left n m events s t errors start q =
        let e : k ≡ left = omega arith in rw (e, append-nil)
    retry_chain k left n m events s t errors (fail {s' = s'} {e = x} {errors = rest} h f) q =
        let p : k ≡ suc (length rest + left) = omega arith in
        rw p (
          retry_fails (length rest + left) n events s s' x h
          ∙ retry_chain (length rest + left) left (suc n) m (events ++ step_retry n x ∷ []) s' t
              rest f refl
          ∙ ap (λ l. retry_loop aborts fn delay_ms left m l t)
              (append_assoc events (step_retry n x ∷ []) (retries (suc n) rest)))

  module _ (aborts : Aborts) (calm : IsCalm aborts) (policy : Option RetryPolicy) (m : ℕ)
      (s t u : S) (errors : List E) (failures : Fails 1 s errors m t) where
    with_retry_loop :
        (left : ℕ)
        → max_attempts_of policy ≡ suc left
        → with_retry aborts fn policy s ≡ retry_loop aborts fn (delay_of policy) left 1 [] s
    unfolding with_retry
    with_retry_loop left h = ground arith

    -- If the signal never fires, and the first attempts throw, fewer than the policy allows, and
    -- the next returns, then so does the whole; it was called once more than it failed, and each
    -- failure is reported as retried.
    pub retry-returns :
        (a : A)
        → length errors < max_attempts_of policy
        → fn m t ≡ (u, returned a)
        → with_retry aborts fn policy s
          ≡ record { state = u; events = retries 1 errors; calls = m; outcome = returned a }
    retry-returns a h e =
        let k = max_attempts_of policy - 1 in
        let left = k - length errors in
        with_retry_loop k (omega arith)
        ∙ retry_chain aborts calm (delay_of policy) k left 1 m [] s t errors failures (omega arith)
        ∙ retry_returns aborts calm (delay_of policy) left m (retries 1 errors) t u a e

    -- If the signal never fires and every allowed attempt throws, the whole throws what the last
    -- attempt threw; the failures before are reported as retried and the last as an error.
    pub retry-exhausts :
        (e : E)
        → suc (length errors) ≡ max_attempts_of policy
        → fn m t ≡ (u, threw e)
        → with_retry aborts fn policy s ≡ record {
          state = u;
          events = retries 1 errors ++ step_error m e ∷ [];
          calls = m;
          outcome = threw e;
        }
    retry-exhausts e h q =
        let k = max_attempts_of policy - 1 in
        with_retry_loop k (omega arith)
        ∙ retry_chain aborts calm (delay_of policy) k 0 1 m [] s t errors failures (omega arith)
        ∙ retry_exhausts aborts calm (delay_of policy) m (retries 1 errors) t u e q
