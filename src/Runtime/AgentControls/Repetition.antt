-- ===== src/Runtime/AgentControls/Repetition.antt =====
-- Asking twice for a replacement in agent-controls.ts.
pub mod Search
pub mod Steps
use dark_kitchen_orchestrato.Prelude.{
  String, ◌≡◌, refl, sym, ◌∙◌, ap, subst, Bool, true, false, not, ◌&&◌, ◌||◌, Option, none, some,
  or_else, is_some, List, [], ◌∷◌, filter, any, ◌==◌, if◌then◌else◌, Result, ok, err, arith, eq_iff,
  eq_refl, Bool-cases, inl, inr, ◌⊎◌,
}
use dark_kitchen_orchestrato.Prelude.Stateful.{
  pure, throw, ◌>>=◌, ◌>>◌, catch, attempt, modify, ask, expect, require, Keeps, bind-Keeps,
  then-Keeps, catch-Keeps, pure-Keeps, throw-Keeps, ask-Keeps, modify-Keeps,
}
use dark_kitchen_orchestrato.Prelude.Stateful.Returns.{
  Returns, pure-Returns, throw-Returns, ask-Returns, modify-Returns, expect-Returns,
  require-Returns, bind-Returns, then-Returns, attempt-Returns,
}
use dark_kitchen_orchestrato.Prelude.Maps
use dark_kitchen_orchestrato.Core.Runs.{RuntimeState, AgentSession, Run}
use dark_kitchen_orchestrato.Harness.RoleRouter.{HarnessProfile, HarnessRuntime}
use dark_kitchen_orchestrato.Runtime.AgentControls.{
  ReplacementAction, action_text, Snapshot, stored_profile, invalid_snapshot,
  AgentSessionRuntimeBinding, ExecutionNode, Controls, ControlError, Call, started, M,
  HarnessSessionState, StartSessionInput, ResolvedControlTarget, Outside, is_terminal,
}
use dark_kitchen_orchestrato.Runtime.AgentControls.Store.{
  created_by, ◌===◌, put_session, updated_session, put_binding, same_text, same_action,
  save_binding, clashes, require_session, require_binding, audit, log, call, answered,
}
use dark_kitchen_orchestrato.Runtime.AgentControls.Rows.{
  profile_of, is_given, replaces, first_replacement, candidates, find_existing_replacement,
  require_harness_profile, first_of, nonempty, replacement_of, replacement_binding, reassigned,
  rerun, subscribe_to,
}
use dark_kitchen_orchestrato.Runtime.AgentControls.Replacement.{
  stop_quietly, winner_or, settle, bind_replacement, adopt, runtime_of, target_profile, start_new,
  or_start, start_replacement, checked_target, switch_agent_profile,
}
use dark_kitchen_orchestrato.Runtime.AgentControls.Finality.{StartsFresh, Keyed}
use dark_kitchen_orchestrato.Runtime.AgentControls.Repetition.Search.{
  found_in, found_in_rows, find_existing_rows, find_existing_again, found_then,
}
use dark_kitchen_orchestrato.Runtime.AgentControls.Repetition.Steps.{
  settle_rows, settle_value, save_binding_rows, save_binding_error, Rows, stop_quietly-Rows,
  call_rows, session_rows, binding_rows,
}

module _ (outside : Outside) (id : String) (action : ReplacementAction) (request_id : Option String)
    (target : Option ResolvedControlTarget) where
  replaced_again :
      (st : Controls) (source r : AgentSession) (b : AgentSessionRuntimeBinding)
      → Maps.get id st.sessions ≡ some source
      → is_terminal source.state ≡ true
      → Maps.get id st.bindings ≡ some b
      → found_in source action (profile_of target b) request_id st ≡ some r
      → start_replacement outside id action request_id target st ≡ (ok r, st)
  unfolding start_replacement require_session require_binding ◌>>=◌ ◌>>◌ ask expect require pure
  replaced_again st source r b s t g f =
      rw (s, t, g, find_existing_again source action (profile_of target b) request_id st r f) refl

module _ (outside : Outside) (id : String) (action : ReplacementAction) (request_id : Option String)
    (target : Option ResolvedControlTarget) (source : AgentSession)
    (b : AgentSessionRuntimeBinding) where
  -- The request can be made in the state, and nothing replaces the source.
  record Asked (st : Controls) : Type 0 where
    named : source.id ≡ id
    source_row : Maps.get id st.sessions ≡ some source
    ended : is_terminal source.state ≡ true
    binding_row : Maps.get id st.bindings ≡ some b
    free : found_in source action (profile_of target b) request_id st ≡ none

  module _ (runtime : HarnessRuntime) (input : StartSessionInput)
      (begun : String × HarnessSessionState) (same_profile : input.profile.id ≡ profile_of target b)
      (other : (begun.0 == source.id) ≡ false) (now : String) where
    abbrev newer : AgentSession
    newer = replacement_of source begun.0 begun.1 now

    abbrev newest : AgentSessionRuntimeBinding
    newest = replacement_binding source b action request_id runtime input begun.0 now

    -- The rows of the source are left.
    other_row :
        {V : Type 0} (k : String) (v : V) (rows : List (String × V))
        → (k == id) ≡ false
        → Maps.get id (Maps.put k v rows) ≡ Maps.get id rows
    other_row k v rows h = Maps.get-put k id v rows ∙ rw h refl

    kept_again :
        (st v : Controls) {u : Unit {0}} {r : AgentSession} {after : Controls}
        → Asked st
        → Maps.get begun.0 st.sessions ≡ none
        → Returns (save_binding outside newest) st u v
        → Returns (settle outside source action request_id runtime newer newest now) v r after
        → start_replacement outside id action request_id target after ≡ (ok r, after)
    kept_again st v {r = r} {after = after} asked n saved settled =
        let put : put_binding outside newest st ≡ v = save_binding_rows outside newest st saved in
        let rows = settle_rows outside source action request_id runtime newer newest now v in
        let value : ◌≡◌ {A = Result ControlError AgentSession} (ok newer) (ok r) =
          sym (settle_value outside source action request_id runtime newer newest now v)
          ∙ ap (λ x. x.0) settled in
        let left : (settle outside source action request_id runtime newer newest now v).1 ≡ after =
          ap (λ x. x.1) settled in
        let sessions : after.sessions
            ≡ (put_session newer (put_binding outside newest st)).sessions =
          sym (ap (λ c. c.sessions) left)
          ∙ (rows.0 ∙ ap (λ c. (put_session newer c).sessions) (sym put)) in
        let bindings : after.bindings ≡ (put_binding outside newest st).bindings =
          sym (ap (λ c. c.bindings) left) ∙ (rows.1 ∙ ap (λ c. c.bindings) (sym put)) in
        let apart : (begun.0 == id) ≡ false =
          subst (λ k. (begun.0 == k) ≡ false) asked.named other in
        let found =
          found_then outside source b action request_id runtime input begun.0 now newer st after
            refl n
            (subst (λ k. found_in source action k request_id st ≡ none) (sym same_profile)
              asked.free)
            sessions bindings in
        let again =
          replaced_again outside id action request_id target after source newer b
            (ap (Maps.get id) sessions ∙ (other_row begun.0 _ _ apart ∙ asked.source_row))
            asked.ended
            (ap (Maps.get id) bindings ∙ (other_row begun.0 _ _ apart ∙ asked.binding_row))
            (subst (λ k. found_in source action k request_id after ≡ some newer) same_profile
              found) in
        again ∙ ap (λ x. (x, after)) value

    lost :
        (st v : Controls) {e : ControlError} {r : AgentSession} {after : Controls}
        → Asked st
        → save_binding outside newest st ≡ (err e, v)
        → Returns
            (stop_quietly outside runtime newer.id
              >> (find_existing_replacement source action newest.profile_id request_id
                  >>= winner_or outside e))
            v
            r
            after
        → ⊥
    lost st v {e = e} {r = r} {after = after} asked refused h =
        let (u, s1, e1, h1) = then-Returns _ _ v h in
        let (o, s2, e2, h2) = bind-Returns _ _ s1 h1 in
        let unsaved : st ≡ v = save_binding_error outside newest st refused in
        let kept =
          subst (λ x. Rows outside st x.1) e1
            ((stop_quietly-Rows outside st runtime newer.id).run v
              (ap (λ c. c.sessions) unsaved, ap (λ c. c.bindings) unsaved)) in
        let found = find_existing_rows source action newest.profile_id request_id s1 e2 in
        let free : found_in source action newest.profile_id request_id st ≡ none =
          subst (λ k. found_in source action k request_id st ≡ none) (sym same_profile)
            asked.free in
        let nothing : o ≡ none =
          sym found.0
          ∙ (sym (found_in_rows source action newest.profile_id request_id st s1 kept.0 kept.1)
              ∙ free) in
        throw-Returns e s2 (subst (λ k. Returns (winner_or outside e k) s2 r after) nothing h2)

    bound_again :
        (st : Controls) {r : AgentSession} {after : Controls}
        → Asked st
        → Maps.get begun.0 st.sessions ≡ none
        → Returns
            (bind_replacement outside source action request_id runtime newer newest now)
            st
            r
            after
        → start_replacement outside id action request_id target after ≡ (ok r, after)
    bound_again st asked n h = elim (attempt-Returns _ _ _ st h) [
      | inl (u, v, saved, settled) ↦ kept_again st v asked n saved settled
      | inr (e, v, refused, rest) ↦ absurd (lost st v asked refused rest)
    ]

  adopted_again :
      (runtime : HarnessRuntime) (input : StartSessionInput) (begun : String × HarnessSessionState)
      (st : Controls) {r : AgentSession} {after : Controls}
      → Asked st
      → Maps.get begun.0 st.sessions ≡ none
      → input.profile.id ≡ profile_of target b
      → Returns (adopt outside source b action request_id runtime input begun) st r after
      → start_replacement outside id action request_id target after ≡ (ok r, after)
  unfolding adopt
  adopted_again runtime input begun st asked n same_profile h =
      elim (Bool-cases (begun.0 == source.id)) [
        | inl same ↦
            let (u, v, e1, h1) = then-Returns _ _ st (rw same at h) in absurd (throw-Returns _ v h1)
        | inr other ↦
            let (now, s1, e1, h1) = bind-Returns _ _ st (rw other at h) in
            let k1 = ask-Returns _ st e1 in
            bound_again runtime input begun same_profile other now s1 (subst Asked k1.1 asked)
              (subst (λ c. Maps.get begun.0 c.sessions ≡ none) k1.1 n) h1
      ]

  runtime_rows :
      (o : Option ResolvedControlTarget) (st : Controls) {r : HarnessRuntime} {after : Controls}
      → Returns (runtime_of outside o b) st r after
      → st ≡ after
  runtime_rows none st h = (expect-Returns _ _ st h).1
  runtime_rows (some t) st h = (pure-Returns _ st h).1

  -- The stored profile of the source has the identifier of its binding.
  abbrev Consistent : AgentSessionRuntimeBinding → Type 0
  Consistent c = (p : HarnessProfile) → c.profile_snapshot ≡ stored_profile p → p.id ≡ c.profile_id

  profile_rows :
      (o : Option ResolvedControlTarget) (st : Controls) {p : HarnessProfile} {after : Controls}
      → Consistent b
      → Returns (target_profile outside o b) st p after
      → (p.id ≡ profile_of o b) × (st ≡ after)
  profile_rows none st consistent h = snapshot b.profile_snapshot refl h
    where
      snapshot :
          (x : Snapshot) {p : HarnessProfile} {after : Controls}
          → b.profile_snapshot ≡ x
          → Returns (require_harness_profile x) st p after
          → (p.id ≡ b.profile_id) × (st ≡ after)
      snapshot (stored_profile q) n k =
          let z = pure-Returns q st k in (sym (ap (λ p. p.id) z.0) ∙ consistent q n, z.1)
      snapshot invalid_snapshot n k = absurd (throw-Returns _ st k)
  profile_rows (some t) st consistent h =
      let z = pure-Returns t.profile st h in (sym (ap (λ p. p.id) z.0), z.1)

  started_again :
      (st : Controls) {r : AgentSession} {after : Controls}
      → StartsFresh outside
      → Consistent b
      → Asked st
      → Returns (start_new outside source b action request_id target) st r after
      → start_replacement outside id action request_id target after ≡ (ok r, after)
  unfolding start_new
  started_again st fresh consistent asked h =
      let (runtime, s1, e1, h1) = bind-Returns _ _ st h in
      let (profile, s2, e2, h2) = bind-Returns _ _ s1 h1 in
      let (begun, s3, e3, h3) = bind-Returns _ _ s2 h2 in
      let k1 = runtime_rows target st e1 in
      let k2 = profile_rows target s1 consistent e2 in
      let k3 = call_rows outside _ _ s2 e3 in
      let there : Asked s2 = subst Asked (k1 ∙ k2.1) asked in
      let then_there : Asked s3 = subst Asked k3.1 (record {
        named = there.named;
        source_row = there.source_row;
        ended = there.ended;
        binding_row = there.binding_row;
        free = there.free;
      }) in
      adopted_again runtime _ begun s3 then_there
        (subst (λ c. Maps.get begun.0 c.sessions ≡ none) k3.1 (fresh s2 runtime _ begun k3.0)) k2.0
        h3

  finished_again :
      (st : Controls) (o : Option AgentSession) {r : AgentSession} {after : Controls}
      → StartsFresh outside
      → Consistent b
      → source.id ≡ id
      → Maps.get id st.sessions ≡ some source
      → is_terminal source.state ≡ true
      → Maps.get id st.bindings ≡ some b
      → found_in source action (profile_of target b) request_id st ≡ o
      → Returns
          (or_start outside o (start_new outside source b action request_id target))
          st
          r
          after
      → start_replacement outside id action request_id target after ≡ (ok r, after)
  finished_again st none fresh consistent named s t g free h =
      started_again st fresh consistent
        (record { named = named; source_row = s; ended = t; binding_row = g; free = free }) h
  finished_again st (some existing) {r = r} {after = after} fresh consistent named s t g found h =
      let k = pure-Returns existing st h in
      subst (λ c. start_replacement outside id action request_id target c ≡ (ok r, c)) k.1
        (replaced_again outside id action request_id target st source r b s t g
          (found ∙ ap some k.0))

-- A replacement is started once: if a request to restart, retry or switch the profile of a session
-- returned a session, then the same request made again returns the same session and changes nothing,
-- so no runtime is called. Sessions are stored under their identifiers, the stored profiles have the
-- identifiers of their bindings, and runtimes start sessions under identifiers that no stored session
-- has.
pub start_replacement_again :
    (outside : Outside) (id : String) (action : ReplacementAction) (request_id : Option String)
    (target : Option ResolvedControlTarget) (st after : Controls) (r : AgentSession)
    → StartsFresh outside
    → Keyed st.sessions
    → ((b : AgentSessionRuntimeBinding) (p : HarnessProfile)
        → Maps.get id st.bindings ≡ some b
        → b.profile_snapshot ≡ stored_profile p
        → p.id ≡ b.profile_id)
    → start_replacement outside id action request_id target st ≡ (ok r, after)
    → start_replacement outside id action request_id target after ≡ (ok r, after)
unfolding start_replacement
start_replacement_again outside id action request_id target st after r fresh keyed consistent h =
    let (source, s1, e1, h1) = bind-Returns _ _ st h in
    let k1 = session_rows outside id st e1 in
    let (u, s2, e2, h2) = then-Returns _ _ s1 h1 in
    let k2 = require-Returns _ _ s1 e2 in
    let (b, s3, e3, h3) = bind-Returns _ _ s2 h2 in
    let k3 = binding_rows outside id s2 e3 in
    let (o, s4, e4, h4) = bind-Returns _ _ s3 h3 in
    let k4 = find_existing_rows source action (profile_of target b) request_id s3 e4 in
    let back2 : s2 ≡ st = sym (k1.1 ∙ k2.1) in
    let back3 : s3 ≡ st = sym k3.1 ∙ back2 in
    let back4 : s4 ≡ st = sym k4.1 ∙ back3 in
    let row = subst (λ c. Maps.get id c.bindings ≡ some b) back2 k3.0 in
    finished_again outside id action request_id target source b st o fresh
      (λ p n. consistent b p row n) (keyed id source k1.0) k1.0 k2.0 row
      (subst (λ c. found_in source action (profile_of target b) request_id c ≡ o) back3 k4.0)
      (subst
        (λ c.
          Returns (or_start outside o (start_new outside source b action request_id target)) c r
            after)
        back4 h4)
