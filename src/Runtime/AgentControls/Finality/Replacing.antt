-- ===== src/Runtime/AgentControls/Finality/Replacing.antt =====
-- Starting a replacement leaves the sessions that have ended.
use dark_kitchen_orchestrato.Prelude.{
  String, ◌≡◌, refl, sym, ◌∙◌, ap, false, Option, none, some, ◌∷◌, ◌==◌, Result, ok, err, eq_iff,
  Bool-cases, inl, inr,
}
use dark_kitchen_orchestrato.Prelude.Stateful.{
  pure, throw, ◌>>=◌, ◌>>◌, continue, modify, ask, bind-Keeps, then-Keeps, catch-Keeps,
  attempt-Keeps, pure-Keeps, throw-Keeps, ask-Keeps, modify-Keeps, expect-Keeps, require-Keeps,
  if-Keeps,
}
use dark_kitchen_orchestrato.Prelude.Maps
use dark_kitchen_orchestrato.Core.Runs.{RuntimeState, AgentSession, Run}
use dark_kitchen_orchestrato.Harness.RoleRouter.{HarnessRuntime}
use dark_kitchen_orchestrato.Runtime.AgentControls.{
  ReplacementAction, Snapshot, AgentSessionRuntimeBinding, ExecutionNode, Call, Controls,
  ControlError, M, HarnessSessionState, StartSessionInput, ResolvedControlTarget, Outside,
  stored_profile, invalid_snapshot,
}
use dark_kitchen_orchestrato.Runtime.AgentControls.Store.{◌===◌, answered, call}
use dark_kitchen_orchestrato.Runtime.AgentControls.Rows.{
  find_existing_replacement, require_harness_profile, reassigned, rerun,
}
use dark_kitchen_orchestrato.Runtime.AgentControls.Replacement.{
  stop_quietly, winner_or, settle, adopt, runtime_of, target_profile, start_new, or_start,
  start_replacement, checked_target, switch_agent_profile,
}
use dark_kitchen_orchestrato.Runtime.AgentControls.Finality.{
  Past, Ended, Keep, Ended-put_session, save_binding-Keep, require_session-Keep,
  require_binding-Keep, audit-Keep, log-Keep, call-Keep,
}

module _ {outside : Outside} (past : Past outside) where
  find_existing_replacement-Keep :
      (source : AgentSession) (action : ReplacementAction) (profile_id : String)
      (request_id : Option String)
      → Keep past (find_existing_replacement source action profile_id request_id)
  unfolding find_existing_replacement
  find_existing_replacement-Keep source action profile_id request_id =
      bind-Keeps (ask-Keeps _)
        λ found. bind-Keeps (ask-Keeps _) λ existing. then-Keeps (require-Keeps _ _) (pure-Keeps _)

  stop_quietly-Keep :
      (runtime : HarnessRuntime) (i : String) → Keep past (stop_quietly outside runtime i)
  stop_quietly-Keep runtime i = catch-Keeps (call-Keep past _ _) λ x. pure-Keeps _

  winner_or-Keep : (x : ControlError) (o : Option AgentSession) → Keep past (winner_or outside x o)
  winner_or-Keep x none = throw-Keeps x
  winner_or-Keep x (some w) = pure-Keeps w

  reassigned-Ended :
      (o : Option ExecutionNode) (r : AgentSession) (now : String) (st : Controls)
      → Ended past st
      → Ended past (reassigned o r now st)
  reassigned-Ended none r now st h = h
  reassigned-Ended (some n) r now st h = h

  rerun-Ended :
      (o : Option Run) (now : String) (st : Controls) → Ended past st → Ended past (rerun o now st)
  rerun-Ended none now st h = h
  rerun-Ended (some run) now st h = elim (Bool-cases ((run.state === RuntimeState.running))) [
    | inl same ↦ rw same h
    | inr other ↦ rw other h
  ]

  settle-Keep :
      (source : AgentSession) (action : ReplacementAction) (request_id : Option String)
      (runtime : HarnessRuntime) (r : AgentSession) (b : AgentSessionRuntimeBinding) (now : String)
      → (r.id == past.id) ≡ false
      → Keep past (settle outside source action request_id runtime r b now)
  unfolding settle
  settle-Keep source action request_id runtime r b now other =
      then-Keeps (modify-Keeps _ (λ st h. Ended-put_session past r st other h)) (
        bind-Keeps (ask-Keeps _) λ node.
          then-Keeps (modify-Keeps _ (λ st h. reassigned-Ended node r now st h)) (
            bind-Keeps (ask-Keeps _) λ run.
              then-Keeps (modify-Keeps _ (λ st h. rerun-Ended run now st h)) (
                then-Keeps (modify-Keeps _ (λ st h. h)) (
                  then-Keeps (audit-Keep past _ _ _ _ _ _)
                    (then-Keeps (log-Keep past _ _) (pure-Keeps _))))))

  adopt-Keep :
      (source : AgentSession) (b : AgentSessionRuntimeBinding) (action : ReplacementAction)
      (request_id : Option String) (runtime : HarnessRuntime) (input : StartSessionInput)
      (begun : String × HarnessSessionState)
      → (begun.0 == past.id) ≡ false
      → Keep past (adopt outside source b action request_id runtime input begun)
  unfolding adopt
  adopt-Keep source b action request_id runtime input begun other =
      if-Keeps _ (then-Keeps (stop_quietly-Keep runtime begun.0) (throw-Keeps _)) (
        bind-Keeps (ask-Keeps _) λ now.
          attempt-Keeps (save_binding-Keep past _)
            (λ saved. settle-Keep source action request_id runtime _ _ now other)
            λ x. then-Keeps (stop_quietly-Keep runtime _) (
              bind-Keeps (find_existing_replacement-Keep source action _ request_id)
                λ o. winner_or-Keep x o))

  -- A call whose answer is known to be such, wherever it is made.
  call_fact-Keep :
      {A B : Type 0} (Q : A → Type 0) (c : Call) (answer : Controls → Result String A) (f : A → M B)
      → ((st : Controls) (a : A) → Ended past st → answer st ≡ ok a → Q a)
      → ((a : A) → Q a → Keep past (f a))
      → Keep past (call outside c answer >>= f)
  unfolding ◌>>=◌ ◌>>◌ ask modify pure throw
  call_fact-Keep {A = A} Q c answer f fact k = record {
    run = λ st h. followed st (answer st) refl h;
  }
    where
      followed :
          (st : Controls) (a : Result String A)
          → answer st ≡ a
          → Ended past st
          → Ended past (continue f (answered outside a (record st { calls = c ∷ st.calls }))).1
      followed st (ok a) n h = (k a (fact st a h n)).run (record st { calls = c ∷ st.calls }) h
      followed st (err x) n h = h

  fresh_other :
      (begun : String × HarnessSessionState) (st : Controls)
      → Ended past st
      → Maps.get begun.0 st.sessions ≡ none
      → (begun.0 == past.id) ≡ false
  fresh_other begun st h n = elim (Bool-cases (begun.0 == past.id)) [
    | inl same ↦
        let found : none ≡ some past.ended =
          sym n ∙ (ap (λ k. Maps.get k st.sessions) ((eq_iff begun.0 past.id).0 same) ∙ h.0) in
        absurd (cc)
    | inr other ↦ other
  ]

  start_new-Keep :
      (source : AgentSession) (b : AgentSessionRuntimeBinding) (action : ReplacementAction)
      (request_id : Option String) (target : Option ResolvedControlTarget)
      → Keep past (start_new outside source b action request_id target)
  unfolding start_new
  start_new-Keep source b action request_id target = bind-Keeps (runtimes target) λ runtime.
      bind-Keeps (profiles target) λ profile.
        call_fact-Keep (λ begun. (begun.0 == past.id) ≡ false) _ _ _
          (λ st begun h n. fresh_other begun st h (past.fresh st runtime _ begun n))
          (λ begun other. adopt-Keep source b action request_id runtime _ begun other)
    where
      runtimes : (o : Option ResolvedControlTarget) → Keep past (runtime_of outside o b)
      runtimes none = expect-Keeps _ _
      runtimes (some t) = pure-Keeps _

      snapshot : (s : Snapshot) → Keep past (require_harness_profile s)
      snapshot (stored_profile p) = pure-Keeps p
      snapshot invalid_snapshot = throw-Keeps _

      profiles : (o : Option ResolvedControlTarget) → Keep past (target_profile outside o b)
      profiles none = snapshot b.profile_snapshot
      profiles (some t) = pure-Keeps _

  or_start-Keep :
      (o : Option AgentSession) (start : M AgentSession)
      → Keep past start
      → Keep past (or_start outside o start)
  or_start-Keep none start k = k
  or_start-Keep (some existing) start k = pure-Keeps existing

  pub start_replacement-Keep :
      (i : String) (action : ReplacementAction) (request_id : Option String)
      (target : Option ResolvedControlTarget)
      → Keep past (start_replacement outside i action request_id target)
  unfolding start_replacement
  start_replacement-Keep i action request_id target =
      bind-Keeps (require_session-Keep past i) λ source. then-Keeps (require-Keeps _ _) (
        bind-Keeps (require_binding-Keep past i) λ b.
          bind-Keeps (find_existing_replacement-Keep source action _ request_id)
            λ existing. or_start-Keep existing _ (start_new-Keep source b action request_id target))

  pub switch_agent_profile-Keep :
      (i profile_id : String) → Keep past (switch_agent_profile outside i profile_id)
  unfolding switch_agent_profile
  switch_agent_profile-Keep i profile_id = then-Keeps (require-Keeps _ _) (
      bind-Keeps (expect-Keeps _ _) λ resolve.
        bind-Keeps (checked (resolve (outside.trim profile_id)))
          λ target. start_replacement-Keep i ReplacementAction.switch_profile none (some target))
    where
      checked :
          (o : Option ResolvedControlTarget)
          → Keep past (checked_target outside (outside.trim profile_id) o)
      checked none = throw-Keeps _
      checked (some t) =
          then-Keeps (require-Keeps _ _) (then-Keeps (require-Keeps _ _) (pure-Keeps t))
