-- ===== src/Engine/Keys.antt =====
-- packages/workflow-engine/src/keys.ts, with the call counters of a `WorkflowBuilder` of engine.ts.
-- The decimal numeral of a number is an argument.
pub mod Position
use Prim.Native.String.{◌++◌ as append}
use dark_kitchen_orchestrato.Prelude.{
  ℕ, suc, zero, ◌+◌, String, or_else, List, [], ◌∷◌, ◌++◌, nat_eq, if◌then◌else◌,
}
use dark_kitchen_orchestrato.Prelude.Maps

pub record KeyContext : Type 0 where
  pub run_id : String
  pub path : List String

-- `segments.join('/')`
abbrev pub join : List String → String
join [] = ""
join (s ∷ []) = s
join (s ∷ t ∷ ss) = append s (append "/" (join (t ∷ ss)))

-- `buildCallKey`
unfoldable pub build_call_key : KeyContext → String → String
build_call_key ctx local_id = join (ctx.path ++ local_id ∷ [])

-- `childKeyContext`
abbrev pub child_key_context : KeyContext → String → KeyContext
child_key_context ctx segment = record ctx { path = ctx.path ++ segment ∷ [] }

-- `rootKeyContext`
abbrev pub root_key_context : String → KeyContext
root_key_context run_id = record { run_id = run_id; path = run_id ∷ [] }

-- What a builder keeps for its keys.
pub record WorkflowBuilder : Type 0 where
  pub key_ctx : KeyContext
  pub call_counters : List (String × ℕ)

abbrev pub new_builder : KeyContext → WorkflowBuilder
new_builder ctx = record { key_ctx = ctx; call_counters = [] }

module _ (numeral : ℕ → String) where
  -- The segment of the call of a local id that has been called `count` times before.
  abbrev pub segment_of : String → ℕ → String
  segment_of local_id count =
      if nat_eq count 0 then local_id else append local_id (append "[" (append (numeral count) "]"))

  -- `nextSegment`
  unfoldable pub next_segment : String → WorkflowBuilder → WorkflowBuilder × String
  next_segment local_id b =
      let count = or_else (Maps.get local_id b.call_counters) 0 in
      (
        record b { call_counters = Maps.put local_id (count + 1) b.call_counters },
        segment_of local_id count,
      )

  -- `nextKey`
  unfoldable pub next_key : String → WorkflowBuilder → WorkflowBuilder × String
  unfolding next_segment
  next_key local_id b =
      ((next_segment local_id b).0, build_call_key b.key_ctx (next_segment local_id b).1)

  -- `phase`: the builder moves on, and a child with counters of its own is returned.
  unfoldable pub phase : String → WorkflowBuilder → WorkflowBuilder × WorkflowBuilder
  unfolding next_segment
  phase name b =
      let x = next_segment (append "phase:" name) b in
      (x.0, new_builder (child_key_context b.key_ctx x.1))

  -- The children of the branches from number `i` on.
  abbrev pub branches : KeyContext → String → ℕ → ℕ → List WorkflowBuilder
  branches ctx segment i zero = []
  branches ctx segment i (suc n) =
      new_builder (child_key_context ctx (append segment (append "/branch:" (numeral i))))
      ∷ branches ctx segment (suc i) n

  -- The children that `parallel` builds for its factories before any of them runs.
  unfoldable pub parallel_builders : ℕ → WorkflowBuilder → WorkflowBuilder × List WorkflowBuilder
  unfolding next_segment
  parallel_builders n b = let x = next_segment "parallel" b in (x.0, branches b.key_ctx x.1 0 n)

  -- The keys of a row of calls.
  unfoldable pub next_keys : List String → WorkflowBuilder → List String
  unfolding next_key
  next_keys [] b = []
  next_keys (l ∷ ls) b = let x = next_key l b in x.1 ∷ next_keys ls x.0
