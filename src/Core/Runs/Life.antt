-- ===== src/Core/Runs/Life.antt =====
-- What the transition tables allow, over whole histories.
use dark_kitchen_orchestrato.Prelude.{
  String, ◌≡◌, refl, Option, none, some, true, false, List, [], ◌∷◌, Result, ok, err, ◌>>=◌,
  >>=-eq-ok, arith, if◌then◌else◌, ◌⊎◌, ◌==◌,
}
use dark_kitchen_orchestrato.Core.Ids.{DomainError, illegal_transition}
use dark_kitchen_orchestrato.Core.Runs.{
  RuntimeState, AgentSessionState, Run, AgentSession, runtime_state, can_transition_run,
  can_transition_agent_session, is_terminal_runtime_state, transition_run, transition_agent_session,
}

-- A history: the states asked for, each with its time.
abbrev pub advance_run : Run → List (RuntimeState × String) → Result DomainError Run
advance_run run [] = ok run
advance_run run ((next, now) ∷ rest) = transition_run run next now >>= λ r. advance_run r rest

-- `completedAt` is the time of the last transition in a terminal state, and not there before.
abbrev pub IsStamped : Run → Type 0
IsStamped run =
    run.completed_at ≡ (if is_terminal_runtime_state run.state then some run.updated_at else none)

terminal_stuck :
    (a b : RuntimeState) → is_terminal_runtime_state a ≡ true → can_transition_run a b ≡ false
unfolding can_transition_run
terminal_stuck RuntimeState.completed b h = refl
terminal_stuck RuntimeState.failed b h = refl
terminal_stuck RuntimeState.stopped b h = refl
terminal_stuck _ b h = cc

transition_run-IsStamped :
    (run : Run) (next : RuntimeState) (now : String) {r : Run}
    → IsStamped run
    → transition_run run next now ≡ ok r
    → IsStamped r
unfolding transition_run
transition_run-IsStamped run next now h e = ground (arith, terminal_stuck run.state next)

-- The two tables agree wherever both speak.
can_transition_same :
    (a b : AgentSessionState)
    → can_transition_agent_session a b ≡ can_transition_run (runtime_state a) (runtime_state b)
unfolding can_transition_run can_transition_agent_session
can_transition_same AgentSessionState.starting AgentSessionState.starting = refl
can_transition_same AgentSessionState.starting _ = refl
can_transition_same AgentSessionState.running AgentSessionState.starting = refl
can_transition_same AgentSessionState.running _ = refl
can_transition_same AgentSessionState.waiting AgentSessionState.starting = refl
can_transition_same AgentSessionState.waiting _ = refl
can_transition_same AgentSessionState.blocked AgentSessionState.starting = refl
can_transition_same AgentSessionState.blocked _ = refl
can_transition_same AgentSessionState.completed AgentSessionState.starting = refl
can_transition_same AgentSessionState.completed _ = refl
can_transition_same AgentSessionState.failed AgentSessionState.starting = refl
can_transition_same AgentSessionState.failed _ = refl
can_transition_same AgentSessionState.stopped AgentSessionState.starting = refl
can_transition_same AgentSessionState.stopped _ = refl
can_transition_same AgentSessionState.interrupted AgentSessionState.starting = refl
can_transition_same AgentSessionState.interrupted _ = refl

keep-IsStamped :
    (run : Run) (steps : List (RuntimeState × String)) {r : Run}
    → IsStamped run
    → advance_run run steps ≡ ok r
    → IsStamped r
keep-IsStamped run [] h e = ground (arith)
keep-IsStamped run ((next, now) ∷ rest) h e =
    let (r', first, last) = >>=-eq-ok (transition_run run next now) (λ r. advance_run r rest) e in
    keep-IsStamped r' rest (transition_run-IsStamped run next now h first) last

-- A run that starts stamped, as a new one does, is stamped after every history that is accepted:
-- `completedAt` is the time of its last transition exactly if its state is terminal. A terminal
-- state ends the history: any further transition is refused.
pub advance_run-IsStamped :
    (run : Run) (steps : List (RuntimeState × String)) (next : RuntimeState) (now : String)
    {r : Run}
    → IsStamped run
    → advance_run run steps ≡ ok r
    → IsStamped r
      × ((is_terminal_runtime_state r.state ≡ false) ⊎ (can_transition_run r.state next ≡ false))
advance_run-IsStamped run steps next now {r} h e =
    (keep-IsStamped run steps h e, ground (arith, terminal_stuck r.state next))

-- How to stop a run from any state.
abbrev stop_steps : RuntimeState → String → List (RuntimeState × String)
stop_steps RuntimeState.interrupted now =
    (RuntimeState.starting, now) ∷ (RuntimeState.stopped, now) ∷ []
stop_steps _ now = (RuntimeState.stopped, now) ∷ []

abbrev stopped_at : Run → String → Run
stopped_at r t = record r { state = RuntimeState.stopped; updated_at = t; completed_at = some t }

stop_one :
    (r : Run) (t : String)
    → can_transition_run r.state RuntimeState.stopped ≡ true
    → transition_run r RuntimeState.stopped t ≡ ok (stopped_at r t)
unfolding transition_run
stop_one r t h = rw h

restart_one :
    (r : Run) (t : String)
    → can_transition_run r.state RuntimeState.starting ≡ true
    → transition_run r RuntimeState.starting t
      ≡ ok (record r { state = RuntimeState.starting; updated_at = t })
unfolding transition_run
restart_one r t h = rw h

stop_from :
    (s : RuntimeState) (r : Run) (t : String)
    → r.state ≡ s
    → is_terminal_runtime_state s ≡ false
    → advance_run r (stop_steps s t) ≡ ok (stopped_at r t)
unfolding can_transition_run
stop_from RuntimeState.completed r t e h = absurd (cc)
stop_from RuntimeState.failed r t e h = absurd (cc)
stop_from RuntimeState.stopped r t e h = absurd (cc)
stop_from RuntimeState.interrupted r t e h =
    rw (restart_one r t (rw e))
      (rw (stop_one (record r { state = RuntimeState.starting; updated_at = t }) t refl))
stop_from _ r t e h = rw (stop_one r t (rw e))

-- From every state that is not terminal a run can be stopped, in two transitions at most; it is
-- then stamped with their time and otherwise as before.
run_can_stop :
    (run : Run) (now : String)
    → is_terminal_runtime_state run.state ≡ false
    → advance_run run (stop_steps run.state now)
      ≡ ok (record run { state = RuntimeState.stopped; updated_at = now; completed_at = some now })
run_can_stop run now h = stop_from run.state run now refl h

-- What both kinds of entity show of their life.
pub record View : Type 0 where
  pub state : RuntimeState
  pub updated_at : String
  pub completed_at : Option String

-- The states that a refused transition names, if it names the entity.
abbrev pub refused : String → DomainError → Option (String × String)
refused entity (illegal_transition named from to) =
    if named == entity then some (from, to) else none
refused entity _ = none

abbrev pub view_run : Result DomainError Run → Result (Option (String × String)) View
view_run (ok r) =
    ok (record { state = r.state; updated_at = r.updated_at; completed_at = r.completed_at })
view_run (err e) = err (refused "run" e)

abbrev pub view_session : Result DomainError AgentSession → Result (Option (String × String)) View
view_session (ok s) = ok (record {
  state = runtime_state s.state;
  updated_at = s.updated_at;
  completed_at = s.completed_at;
})
view_session (err e) = err (refused "agent session" e)

-- A session and a run that show the same life show the same after the same transition: the two
-- tables and the two functions agree on the states of a session. Where they refuse, the errors name
-- the same states, that of the session as an agent session and that of the run as a run.
pub session_simulates_run :
    (s : AgentSession) (r : Run) (next : AgentSessionState) (now : String)
    → view_session (ok s) ≡ view_run (ok r)
    → view_session (transition_agent_session s next now)
      ≡ view_run (transition_run r (runtime_state next) now)
unfolding transition_agent_session transition_run
session_simulates_run s r next now h = ground (arith, can_transition_same s.state next)
