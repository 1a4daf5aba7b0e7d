-- ===== src/Verification/Service/Finality.antt =====
-- A run that has reached a terminal state is never changed again.
use dark_kitchen_orchestrato.Prelude.{
  String, ◌≡◌, ◌≢◌, refl, sym, ◌∙◌, subst, true, false, not, ◌&&◌, Option, none, some, List, [],
  ◌∷◌, Result, ok, err, guard, leb, >>=-eq-ok, test_of_ne, all, All, Bool-cases, inl, inr,
}
use dark_kitchen_orchestrato.Prelude.Maps
use dark_kitchen_orchestrato.Prelude.Maps.{get-put}
use dark_kitchen_orchestrato.Verification.Runs.{
  VerificationRunState, pending, running, passed, failed, cancelled, VerificationCriterionResult,
  VerificationRun, create_run, is_pass, is_terminal, Order,
}
use dark_kitchen_orchestrato.Verification.Service.{
  ServiceError, cannot_start, cannot_complete, cannot_retry, exhausted, not_all_pass, is_verdict,
  is_reusable, is_retriable, task_of, profile_for, Profile, Answer, kept, stored, Runs, settle,
  require_run, require_profile, max_attempts_of, request, retry, cancel, mark_running, complete,
  is_passed, completed_run, reuse, newest, Call, requested, retried, was_cancelled, started,
  completed, answer, serve,
}
use dark_kitchen_orchestrato.Verification.Service.Keeping.{ok_injective, get_of_require}

-- The identifier that a call draws, if it draws one, is not `id`.
abbrev pub DrawsOther : String → Call → Type 0
DrawsOther id (requested task p drawn now) = drawn ≢ id
DrawsOther id (retried run_id drawn now) = drawn ≢ id
DrawsOther id _ = Unit

-- What an answer stores is not under `id`.
abbrev Avoids : String → Answer → Type 0
Avoids id (kept r) = Unit
Avoids id (stored k r) = k ≢ id

get-settle :
    (id : String) (s : Runs) (x : Result ServiceError Answer)
    → ((a : Answer) → x ≡ ok a → Avoids id a)
    → Maps.get id (settle s x).0 ≡ Maps.get id s
unfolding settle
get-settle id s (ok (kept r)) w = refl
get-settle id s (ok (stored k r)) w =
    get-put k id r s ∙ rw (test_of_ne k id (w (stored k r) refl)) refl
get-settle id s (err e) w = refl

on_ok :
    (id : String) (x : Answer) {a : Answer}
    → ◌≡◌ {A = Result ServiceError Answer} (ok x) (ok a)
    → Avoids id x
    → Avoids id a
on_ok id x {a} e h = subst (Avoids id) (ok_injective e) h

-- The key of a run that is not terminal is not that of one that is.
other_key :
    (id k : String) (s : Runs) {r run : VerificationRun}
    → Maps.get id s ≡ some r
    → is_terminal r.state ≡ true
    → require_run k s ≡ ok run
    → is_terminal run.state ≡ false
    → k ≢ id
other_key id k s {r} {run} g t p f e =
    apart (same (sym (get_of_require k s p) ∙ subst (λ i. Maps.get i s ≡ some r) (sym e) g))
  where
    same : {x y : VerificationRun} → some x ≡ some y → x ≡ y
    same e = cc

    apart : ¬ (run ≡ r)
    apart e = absurd (cc (sym f ∙ subst (λ x. is_terminal x.state ≡ true) (sym e) t))

module _ (id : String) (s : Runs) (r : VerificationRun) (here : Maps.get id s ≡ some r)
    (final : is_terminal r.state ≡ true) where
  cancel-Avoids : (k now : String) (a : Answer) → cancel k now s ≡ ok a → Avoids id a
  unfolding cancel
  cancel-Avoids k now a e =
      let (run, p, q) = >>=-eq-ok (require_run k s) _ e in
      elim (Bool-cases (is_terminal run.state)) [
        | inl t ↦ on_ok id (kept run) (rw t at q) tt
        | inr f ↦
            on_ok id
              (stored k
                (record run { state = VerificationRunState.cancelled; completed_at = some now }))
              (rw f at q) (other_key id k s here final p f)
      ]

  mark_running-Avoids : (k : String) (a : Answer) → mark_running k s ≡ ok a → Avoids id a
  unfolding mark_running
  mark_running-Avoids k a e =
      let (run, p, q) = >>=-eq-ok (require_run k s) _ e in go run p run.state refl q
    where
      go :
          (run : VerificationRun)
          → require_run k s ≡ ok run
          → (st : VerificationRunState) → run.state ≡ st
          → elim run.state [
            | running ↦ ok (kept run)
            | pending ↦ ok (stored k (record run { state = running }))
            | other ↦ err (cannot_start other)
          ]
            ≡ ok a
          → Avoids id a
      go run p running x q = on_ok id (kept run) (rw x at q) tt
      go run p pending x q =
          on_ok id (stored k (record run { state = running })) (rw x at q)
            (other_key id k s here final p (rw x refl))
      go run p passed x q = absurd (cc)
      go run p failed x q = absurd (cc)
      go run p VerificationRunState.blocked x q = absurd (cc)
      go run p cancelled x q = absurd (cc)

  complete-Avoids :
      (k : String) (state : VerificationRunState) (results : List VerificationCriterionResult)
      (message now : String) (a : Answer)
      → complete k state results message now s ≡ ok a
      → Avoids id a
  unfolding complete
  complete-Avoids k state results message now a e =
      let (u, first, rest) = >>=-eq-ok (guard (is_verdict state) (cannot_complete state)) _ e in
      let (run, p, q) = >>=-eq-ok (require_run k s) _ rest in
      elim (Bool-cases (is_terminal run.state)) [
        | inl t ↦ on_ok id (kept run) (rw t at q) tt
        | inr f ↦
            let (v, g, last) =
              >>=-eq-ok
                (guard (not (is_passed state && not (all (λ c. is_pass c.status) results)))
                  not_all_pass)
                _ (rw f at q) in
            on_ok id (stored k (completed_run state results message now run)) last
              (other_key id k s here final p f)
      ]

  module _ (profiles : List Profile) (required_profile : String → Option String)
      (locale_compare : String → String → Order) where
    reuse-Avoids :
        (o : Option VerificationRun) (x : VerificationRun)
        → x.id ≢ id
        → Avoids id (reuse profiles required_profile locale_compare o x)
    reuse-Avoids none x n = n
    reuse-Avoids (some old) x n = elim (Bool-cases (is_reusable old.state)) [
      | inl e ↦ rw e tt
      | inr e ↦ rw e n
    ]

    request-Avoids :
        (task : String) (profile_id : Option String) (drawn now : String) (a : Answer)
        → drawn ≢ id
        → request profiles required_profile locale_compare task profile_id drawn now s ≡ ok a
        → Avoids id a
    unfolding request
    request-Avoids task profile_id drawn now a n e =
        let (t, p, rest) = >>=-eq-ok (task_of task) _ e in
        let (x, q, more) =
          >>=-eq-ok (profile_for profiles required_profile locale_compare task profile_id) _ rest in
        let (y, v, last) = >>=-eq-ok (require_profile profiles x) _ more in
        on_ok id _ last (
          reuse-Avoids (newest profiles required_profile locale_compare t x s)
            (create_run drawn now t x 1) n)

    retry-Avoids :
        (run_id drawn now : String) (a : Answer)
        → drawn ≢ id
        → retry profiles required_profile locale_compare run_id drawn now s ≡ ok a
        → Avoids id a
    unfolding retry
    retry-Avoids run_id drawn now a n e =
        let (x, p, rest) = >>=-eq-ok (require_run run_id s) _ e in
        let (u, q, more) = >>=-eq-ok (guard (is_retriable x.state) (cannot_retry x.state)) _ rest in
        let (y, v, others) = >>=-eq-ok (require_profile profiles x.profile_id) _ more in
        let (w, g, last) =
          >>=-eq-ok
            (guard (not (leb (max_attempts_of y) x.attempt))
              (exhausted x.profile_id (max_attempts_of y)))
            _ others in
        on_ok id _ last n

    answer-Avoids :
        (c : Call) (a : Answer)
        → DrawsOther id c
        → answer profiles required_profile locale_compare c s ≡ ok a
        → Avoids id a
    unfolding answer
    answer-Avoids (requested task p drawn now) a n e = request-Avoids task p drawn now a n e
    answer-Avoids (retried run_id drawn now) a n e = retry-Avoids run_id drawn now a n e
    answer-Avoids (was_cancelled run_id now) a n e = cancel-Avoids run_id now a e
    answer-Avoids (started run_id) a n e = mark_running-Avoids run_id a e
    answer-Avoids (completed run_id state results message now) a n e =
        complete-Avoids run_id state results message now a e

-- A run in a terminal state stays as it is, whatever clients call, as long as no later call draws
-- its identifier for a new run.
pub terminal_run_kept :
    (profiles : List Profile) (required_profile : String → Option String)
    (locale_compare : String → String → Order) (cs : List Call) (id : String) (s : Runs)
    (r : VerificationRun)
    → Maps.get id s ≡ some r
    → is_terminal r.state ≡ true
    → All (DrawsOther id) cs
    → Maps.get id (serve profiles required_profile locale_compare cs s) ≡ some r
unfolding serve
terminal_run_kept profiles required_profile locale_compare [] id s r g t n = g
terminal_run_kept profiles required_profile locale_compare (c ∷ cs) id s r g t n =
    let x = answer profiles required_profile locale_compare c s in
    terminal_run_kept profiles required_profile locale_compare cs id (settle s x).0 r
      (get-settle id s x
          (λ a e. answer-Avoids id s r g t profiles required_profile locale_compare c a n.0 e)
        ∙ g)
      t n.1
