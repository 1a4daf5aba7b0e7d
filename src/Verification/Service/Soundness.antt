-- ===== src/Verification/Service/Soundness.antt =====
-- Every run that the service keeps is sound, whatever its clients call.
use dark_kitchen_orchestrato.Prelude.{
  ℕ, ◌+◌, ◌≤◌, String, ◌≡◌, ◌⊎◌, inl, inr, refl, true, not, ◌&&◌, Option, none, some, or_else, List,
  [], ◌∷◌, Result, ok, err, guard, >>=-eq-ok, guard-eq-ok, ◌==◌, leb, find, subst, arith,
  Bool-cases,
}
use dark_kitchen_orchestrato.Verification.Runs.{
  VerificationRunState, pending, running, passed, failed, cancelled, VerificationCriterionResult,
  VerificationRun, create_run, is_terminal, Order,
}
use dark_kitchen_orchestrato.Verification.Service.{
  ServiceError, cannot_start, cannot_complete, cannot_retry, exhausted, not_all_pass, is_verdict,
  is_reusable, is_retriable, task_of, profile_for, Profile, Answer, kept, stored, Runs, settle,
  require_run, require_profile, max_attempts_of, request, retry, cancel, mark_running, complete,
  is_passed, completed_run, reuse, newest, Call, requested, retried, was_cancelled, started,
  completed, answer, serve,
}
use dark_kitchen_orchestrato.Verification.Service.Keeping.{
  Keeps, Keeps-get, Stores, settle-Keeps, ok_injective, all_pass, get_of_require,
}

module _ (profiles : List Profile) where
  -- The first attempt is always allowed, a later one up to the number of its profile.
  abbrev pub IsAllowed : String → ℕ → Type 0
  IsAllowed profile_id n =
      (n ≡ 1)
      ⊎ ((p : Profile) × (find (λ q. q.id == profile_id) profiles ≡ some p)
          × (n ≤ or_else p.max_attempts 1))

  pub record IsSound (r : VerificationRun) : Type 0 where
    pub passing : r.state ≡ passed → all_pass r.criterion_results ≡ true
    pub allowed : IsAllowed r.profile_id r.attempt

  new-IsSound : (id now t p : String) (n : ℕ) → IsAllowed p n → IsSound (create_run id now t p n)
  new-IsSound id now t p n h = record { passing = λ e. absurd (cc); allowed = h }

  -- An operation that returns `x` stores what `x` stores.
  on_ok :
      (x : Answer) {a : Answer}
      → ◌≡◌ {A = Result ServiceError Answer} (ok x) (ok a)
      → Stores IsSound x
      → Stores IsSound a
  on_ok x e h = subst (Stores IsSound) (ok_injective e) h

  prior-IsSound :
      (id : String) (s : Runs) {r : VerificationRun}
      → Keeps IsSound s
      → require_run id s ≡ ok r
      → IsSound r
  prior-IsSound id s {r} h e = Keeps-get IsSound id r s h (get_of_require id s e)

  cancel-Stores :
      (id now : String) (s : Runs) (a : Answer)
      → Keeps IsSound s
      → cancel id now s ≡ ok a
      → Stores IsSound a
  unfolding cancel
  cancel-Stores id now s a h e =
      let (run, p, q) = >>=-eq-ok (require_run id s) _ e in
      elim (Bool-cases (is_terminal run.state)) [
        | inl t ↦ on_ok (kept run) (rw t at q) tt
        | inr f ↦
            let r = record run {
              state = VerificationRunState.cancelled;
              completed_at = some now;
            } in
            on_ok (stored id r) (rw f at q)
              (record { passing = λ x. absurd (cc); allowed = (prior-IsSound id s h p).allowed })
      ]

  mark_running-Stores :
      (id : String) (s : Runs) (a : Answer)
      → Keeps IsSound s
      → mark_running id s ≡ ok a
      → Stores IsSound a
  unfolding mark_running
  mark_running-Stores id s a h e =
      let (run, p, q) = >>=-eq-ok (require_run id s) _ e in go run p run.state refl q
    where
      go :
          (run : VerificationRun)
          → require_run id s ≡ ok run
          → (st : VerificationRunState) → run.state ≡ st
          → elim run.state [
            | running ↦ ok (kept run)
            | pending ↦ ok (stored id (record run { state = running }))
            | other ↦ err (cannot_start other)
          ]
            ≡ ok a
          → Stores IsSound a
      go run p running x q = on_ok (kept run) (rw x at q) tt
      go run p pending x q =
          on_ok (stored id (record run { state = running })) (rw x at q)
            (record { passing = λ y. absurd (cc); allowed = (prior-IsSound id s h p).allowed })
      go run p passed x q = absurd (cc)
      go run p failed x q = absurd (cc)
      go run p VerificationRunState.blocked x q = absurd (cc)
      go run p cancelled x q = absurd (cc)

  complete-Stores :
      (id : String) (state : VerificationRunState) (results : List VerificationCriterionResult)
      (message now : String) (s : Runs) (a : Answer)
      → Keeps IsSound s
      → complete id state results message now s ≡ ok a
      → Stores IsSound a
  unfolding complete
  complete-Stores id state results message now s a h e =
      let (u, first, rest) = >>=-eq-ok (guard (is_verdict state) (cannot_complete state)) _ e in
      let (run, p, q) = >>=-eq-ok (require_run id s) _ rest in
      elim (Bool-cases (is_terminal run.state)) [
        | inl t ↦ on_ok (kept run) (rw t at q) tt
        | inr f ↦
            let (v, g, last) =
              >>=-eq-ok (guard (not (is_passed state && not (all_pass results))) not_all_pass) _
                (rw f at q) in
            on_ok (stored id (completed_run state results message now run)) last (record {
              passing = λ x. passes state results x g;
              allowed = (prior-IsSound id s h p).allowed;
            })
      ]
    where
      passes :
          (st : VerificationRunState) (results : List VerificationCriterionResult)
          → st ≡ passed
          → guard (not (is_passed st && not (all_pass results))) not_all_pass ≡ ok tt
          → all_pass results ≡ true
      passes st results x g =
          ground (arith, guard-eq-ok (not (is_passed st && not (all_pass results))) not_all_pass g)

  module _ (required_profile : String → Option String)
      (locale_compare : String → String → Order) where
    reuse-Stores :
        (o : Option VerificationRun) (r : VerificationRun)
        → IsSound r
        → Stores IsSound (reuse profiles required_profile locale_compare o r)
    reuse-Stores none r h = h
    reuse-Stores (some old) r h = elim (Bool-cases (is_reusable old.state)) [
      | inl e ↦ rw e tt
      | inr e ↦ rw e h
    ]

    request-Stores :
        (task : String) (profile_id : Option String) (id now : String) (s : Runs) (a : Answer)
        → request profiles required_profile locale_compare task profile_id id now s ≡ ok a
        → Stores IsSound a
    unfolding request
    request-Stores task profile_id id now s a e =
        let (t, p, rest) = >>=-eq-ok (task_of task) _ e in
        let (x, q, more) =
          >>=-eq-ok (profile_for profiles required_profile locale_compare task profile_id) _ rest in
        let (y, v, last) = >>=-eq-ok (require_profile profiles x) _ more in
        on_ok _ last (
          reuse-Stores (newest profiles required_profile locale_compare t x s)
            (create_run id now t x 1) (new-IsSound id now t x 1 (inl refl)))

    found_of :
        (id : String) {p : Profile}
        → require_profile profiles id ≡ ok p
        → find (λ q. q.id == id) profiles ≡ some p
    found_of id h = ground arith

    within :
        (p : Profile) (n : ℕ) (e : ServiceError) {u : Unit {0}}
        → guard (not (leb (max_attempts_of p) n)) e ≡ ok u
        → n + 1 ≤ max_attempts_of p
    within p n e h = ground (arith, guard-eq-ok (not (leb (max_attempts_of p) n)) e h)

    retry-Stores :
        (run_id id now : String) (s : Runs) (a : Answer)
        → retry profiles required_profile locale_compare run_id id now s ≡ ok a
        → Stores IsSound a
    unfolding retry
    retry-Stores run_id id now s a e =
        let (r, p, rest) = >>=-eq-ok (require_run run_id s) _ e in
        let (u, q, more) = >>=-eq-ok (guard (is_retriable r.state) (cannot_retry r.state)) _ rest in
        let (y, v, others) = >>=-eq-ok (require_profile profiles r.profile_id) _ more in
        let (w, g, last) =
          >>=-eq-ok
            (guard (not (leb (max_attempts_of y) r.attempt))
              (exhausted r.profile_id (max_attempts_of y)))
            _ others in
        on_ok _ last (
          new-IsSound id now r.task_id r.profile_id (r.attempt + 1)
            (inr (y, found_of r.profile_id v, within y r.attempt _ g)))

    answer-Stores :
        (c : Call) (s : Runs) (a : Answer)
        → Keeps IsSound s
        → answer profiles required_profile locale_compare c s ≡ ok a
        → Stores IsSound a
    unfolding answer
    answer-Stores (requested task p id now) s a h e = request-Stores task p id now s a e
    answer-Stores (retried run_id id now) s a h e = retry-Stores run_id id now s a e
    answer-Stores (was_cancelled run_id now) s a h e = cancel-Stores run_id now s a h e
    answer-Stores (started run_id) s a h e = mark_running-Stores run_id s a h e
    answer-Stores (completed run_id state results message now) s a h e =
        complete-Stores run_id state results message now s a h e

    -- If each run that the service keeps is sound, it stays so whatever its clients call: one that
    -- has passed holds no criterion that did not pass, and an attempt after the first is within
    -- the number that its profile allows.
    pub serve-Keeps :
        (cs : List Call) (s : Runs)
        → Keeps IsSound s
        → Keeps IsSound (serve profiles required_profile locale_compare cs s)
    unfolding serve
    serve-Keeps [] s h = h
    serve-Keeps (c ∷ cs) s h =
        serve-Keeps cs (settle s (answer profiles required_profile locale_compare c s)).0 (
          settle-Keeps IsSound s (answer profiles required_profile locale_compare c s) h
            (λ a e. answer-Stores c s a h e))
