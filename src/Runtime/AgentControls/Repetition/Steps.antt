-- ===== src/Runtime/AgentControls/Repetition/Steps.antt =====
-- Which sessions and bindings the steps of startReplacement in agent-controls.ts leave.
use dark_kitchen_orchestrato.Prelude.{
  String, ◌≡◌, refl, ◌∙◌, ap, Option, none, some, ◌∷◌, any, Result, ok, err, Bool-cases, inl, inr,
}
use dark_kitchen_orchestrato.Prelude.Stateful.{
  pure, throw, ◌>>=◌, ◌>>◌, modify, ask, require, Keeps, bind-Keeps, then-Keeps, catch-Keeps,
  pure-Keeps, throw-Keeps, ask-Keeps, modify-Keeps,
}
use dark_kitchen_orchestrato.Prelude.Stateful.Returns.{
  Returns, pure-Returns, throw-Returns, ask-Returns, modify-Returns, expect-Returns,
  require-Returns, bind-Returns, then-Returns,
}
use dark_kitchen_orchestrato.Prelude.Maps
use dark_kitchen_orchestrato.Core.Runs.{RuntimeState, AgentSession, Run}
use dark_kitchen_orchestrato.Harness.RoleRouter.{HarnessRuntime}
use dark_kitchen_orchestrato.Runtime.AgentControls.{
  ReplacementAction, AgentSessionRuntimeBinding, ExecutionNode, Controls, ControlError, Call,
  Outside,
}
use dark_kitchen_orchestrato.Runtime.AgentControls.Store.{
  ◌===◌, put_session, put_binding, save_binding, clashes, require_session, require_binding, audit,
  call, answered,
}
use dark_kitchen_orchestrato.Runtime.AgentControls.Rows.{reassigned, rerun}
use dark_kitchen_orchestrato.Runtime.AgentControls.Replacement.{stop_quietly, settle}

-- What settling leaves of sessions and bindings.
reassigned_rows :
    (o : Option ExecutionNode) (r : AgentSession) (now : String) (st : Controls)
    → ((reassigned o r now st).sessions ≡ st.sessions)
      × ((reassigned o r now st).bindings ≡ st.bindings)
reassigned_rows none r now st = (refl, refl)
reassigned_rows (some n) r now st = (refl, refl)

rerun_rows :
    (o : Option Run) (now : String) (st : Controls)
    → ((rerun o now st).sessions ≡ st.sessions) × ((rerun o now st).bindings ≡ st.bindings)
rerun_rows none now st = (refl, refl)
rerun_rows (some run) now st = elim (Bool-cases (run.state === RuntimeState.running)) [
  | inl same ↦ rw same (refl, refl)
  | inr other ↦ rw other (refl, refl)
]

module _ (outside : Outside) where
  pub settle_rows :
      (source : AgentSession) (action : ReplacementAction) (request_id : Option String)
      (runtime : HarnessRuntime) (r : AgentSession) (b : AgentSessionRuntimeBinding) (now : String)
      (st : Controls)
      → ((settle outside source action request_id runtime r b now st).1.sessions
          ≡ (put_session r st).sessions)
        × ((settle outside source action request_id runtime r b now st).1.bindings ≡ st.bindings)
  unfolding settle ◌>>=◌ ◌>>◌ ask modify pure audit
  settle_rows source action request_id runtime r b now st =
      let one = put_session r st in
      let two = reassigned (Maps.get source.execution_node_id one.nodes) r now one in
      let a = reassigned_rows (Maps.get source.execution_node_id one.nodes) r now one in
      let d = rerun_rows (Maps.get source.run_id two.runs) now two in (d.0 ∙ a.0, d.1 ∙ a.1)

  pub settle_value :
      (source : AgentSession) (action : ReplacementAction) (request_id : Option String)
      (runtime : HarnessRuntime) (r : AgentSession) (b : AgentSessionRuntimeBinding) (now : String)
      (st : Controls)
      → (settle outside source action request_id runtime r b now st).0 ≡ ok r
  unfolding settle ◌>>=◌ ◌>>◌ ask modify pure audit
  settle_value source action request_id runtime r b now st = refl

  pub save_binding_rows :
      (b : AgentSessionRuntimeBinding) (st : Controls) {u : Unit {0}} {after : Controls}
      → Returns (save_binding outside b) st u after
      → put_binding outside b st ≡ after
  unfolding save_binding
  save_binding_rows b st h =
      let (taken, s1, e1, h1) = bind-Returns _ _ st h in
      let (u, s2, e2, h2) = then-Returns _ _ s1 h1 in
      let k1 = ask-Returns _ st e1 in
      let k2 = require-Returns _ _ s1 e2 in
      ap (put_binding outside b) (k1.1 ∙ k2.1) ∙ modify-Returns _ s2 h2

  pub save_binding_error :
      (b : AgentSessionRuntimeBinding) (st : Controls) {e : ControlError} {after : Controls}
      → save_binding outside b st ≡ (err e, after)
      → st ≡ after
  unfolding save_binding ◌>>=◌ ◌>>◌ ask modify pure throw require
  save_binding_error b st h = elim (Bool-cases (any (clashes b) (Maps.values st.bindings))) [
    | inl taken ↦ ap (λ x. x.1) (rw taken at h)
    | inr free ↦ let thrown = rw free at h in absurd (cc)
  ]

  -- The rows of sessions and bindings.
  abbrev pub Rows : Controls → Controls → Type 0
  Rows a b = (a.sessions ≡ b.sessions) × (a.bindings ≡ b.bindings)

  pub stop_quietly-Rows :
      (start : Controls) (runtime : HarnessRuntime) (id : String)
      → Keeps (Rows start) (stop_quietly outside runtime id)
  stop_quietly-Rows start runtime id =
      catch-Keeps
        (bind-Keeps (ask-Keeps _) λ a. then-Keeps (modify-Keeps _ (λ st h. h)) (answers a))
        λ x. pure-Keeps tt
    where
      answers : (a : Result String (Unit {0})) → Keeps (Rows start) (answered outside a)
      answers (ok a) = pure-Keeps a
      answers (err x) = throw-Keeps _

  -- What a call leaves and says.
  pub call_rows :
      {A : Type 0} (c : Call) (answer : Controls → Result String A) (st : Controls) {a : A}
      {after : Controls}
      → Returns (call outside c answer) st a after
      → (answer st ≡ ok a) × (record st { calls = c ∷ st.calls } ≡ after)
  unfolding ◌>>=◌ ◌>>◌ ask modify pure throw
  call_rows {A = A} c answer st h = answers (answer st) refl h
    where
      answers :
          (x : Result String A) {a : A} {after : Controls}
          → answer st ≡ x
          → Returns (answered outside x) (record st { calls = c ∷ st.calls }) a after
          → (answer st ≡ ok a) × (record st { calls = c ∷ st.calls } ≡ after)
      answers (ok a) e k = let p = pure-Returns a _ k in (e ∙ ap ok p.0, p.1)
      answers (err e) n k = absurd (throw-Returns _ _ k)

module _ (outside : Outside) (id : String) (st : Controls) where
  pub session_rows :
      {s : AgentSession} {after : Controls}
      → Returns (require_session outside id) st s after
      → (Maps.get id st.sessions ≡ some s) × (st ≡ after)
  unfolding require_session
  session_rows h =
      let (o, s1, e1, h1) = bind-Returns _ _ st h in
      let k = ask-Returns _ st e1 in let l = expect-Returns _ o s1 h1 in (k.0 ∙ l.0, k.1 ∙ l.1)

  pub binding_rows :
      {b : AgentSessionRuntimeBinding} {after : Controls}
      → Returns (require_binding outside id) st b after
      → (Maps.get id st.bindings ≡ some b) × (st ≡ after)
  unfolding require_binding
  binding_rows h =
      let (o, s1, e1, h1) = bind-Returns _ _ st h in
      let k = ask-Returns _ st e1 in let l = expect-Returns _ o s1 h1 in (k.0 ∙ l.0, k.1 ∙ l.1)
