-- ===== src/Engine/Body.antt =====
-- Workflow bodies over the agent calls and phases of a `WorkflowBuilder` of
-- packages/workflow-engine/src/engine.ts. A body awaits each call before the next and lets errors
-- pass. The numeral of a number and `trim` are arguments.
pub mod Replay
use Prim.Native.String.{◌++◌ as append}
use dark_kitchen_orchestrato.Prelude.{
  ℕ, suc, ◌+◌, String, ◌||◌, ◌==◌, Bool, true, false, Option, none, some, List, [], ◌∷◌, ◌++◌,
  length, get_elem?, set,
}
use dark_kitchen_orchestrato.Engine.Retry.{
  Outcome, returned, threw, cancelled, misconfigured, RetryPolicy, Aborts,
}
use dark_kitchen_orchestrato.Engine.Journal.{Journal}
use dark_kitchen_orchestrato.Engine.AgentStep.{
  AgentError, AgentCallOutput, Harness, Stepped, run_agent_step,
}
use dark_kitchen_orchestrato.Engine.Keys.{WorkflowBuilder, next_key, phase}

-- `WorkflowFn`: what a body does next. It names the builders that it holds by their numbers; the
-- child builder of a phase gets the next number.
pub data Body (V R : Type 0) : Type 0 where
  ends : R → Body V R
  calls_agent : ℕ → String → Option RetryPolicy → (AgentCallOutput V → Body V R) → Body V R
  enters_phase : ℕ → String → Body V R → Body V R

pub data BodyError : Type 0 where
  -- `MissingRoleError`
  missing_role : BodyError
  agent_failed : AgentError → BodyError

-- The end of a body, with the number of runners that were called.
pub record Played (V C R : Type 0) : Type 0 where
  pub journal : Journal V C
  pub runs : ℕ
  pub outcome : Outcome BodyError R

-- What is outside during an agent call.
pub record Outside (V C : Type 0) : Type 0 where
  pub aborts : Aborts
  pub harness : Harness V C

module _ {V C R : Type 0} where
  -- What follows an agent call; the rest of the body is handed in.
  unfoldable pub proceed :
      Journal V C
      → ℕ
      → Outcome AgentError (AgentCallOutput V)
      → (AgentCallOutput V → Played V C R)
      → Played V C R
  proceed j n (returned a) rest = record {
    journal = (rest a).journal;
    runs = n + (rest a).runs;
    outcome = (rest a).outcome;
  }
  proceed j n (threw e) rest = record { journal = j; runs = n; outcome = threw (agent_failed e) }
  proceed j n cancelled rest = record { journal = j; runs = n; outcome = cancelled }
  proceed j n misconfigured rest = record { journal = j; runs = n; outcome = misconfigured }

  abbrev pub stop : Journal V C → Outcome BodyError R → Played V C R
  stop j o = record { journal = j; runs = 0; outcome = o }

  -- The same for what `agent` comes to.
  unfoldable pub after_agent :
      Journal V C
      → WorkflowBuilder × Option (Stepped V C)
      → (WorkflowBuilder → Journal V C → AgentCallOutput V → Played V C R)
      → Played V C R
  unfolding proceed
  after_agent j (b, none) rest = stop j (threw missing_role)
  after_agent j (b, some s) rest = proceed s.journal (length s.offers) s.outcome (rest b s.journal)

-- `!options.role || options.role.trim().length === 0`
abbrev pub is_missing : (String → String) → String → Bool
is_missing trim role = role == "" || trim role == ""

module _ (numeral : ℕ → String) (trim : String → String) where
  -- `agent`: without a role no key is taken.
  unfoldable pub agent :
      {V C : Type 0}
      → Outside V C
      → String
      → Option RetryPolicy
      → Journal V C
      → WorkflowBuilder
      → WorkflowBuilder × Option (Stepped V C)
  unfolding next_key
  agent outside role policy j b = elim (is_missing trim role) [
    | true ↦ (b, none)
    | false ↦
        let x = next_key numeral (append "agent:" role) b in
        (x.0, some (run_agent_step outside.aborts outside.harness role x.1 policy j))
  ]

  -- A body from its call number `n` on, with the builders that it holds.
  unfoldable pub play :
      {V C R : Type 0}
      → (ℕ → Outside V C)
      → Body V R
      → ℕ
      → List WorkflowBuilder
      → Journal V C
      → Played V C R
  unfolding agent after_agent phase
  play world (ends r) n bs j = stop j (returned r)
  play world (calls_agent i role policy rest) n bs j = elim (get_elem? bs i) [
    | none ↦ stop j misconfigured
    | some b ↦
        after_agent j (agent (world n) role policy j b)
          (λ b' j' a. play world (rest a) (suc n) (set bs i b') j')
  ]
  play world (enters_phase i name rest) n bs j = elim (get_elem? bs i) [
    | none ↦ stop j misconfigured
    | some b ↦ let x = phase numeral name b in play world rest n (set bs i x.0 ++ x.1 ∷ []) j
  ]
