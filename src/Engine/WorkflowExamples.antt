-- ===== src/Engine/WorkflowExamples.antt =====
-- Small runs of `parallel` and of workflow bodies of packages/workflow-engine.
use dark_kitchen_orchestrato.Prelude.{
  ℕ, ◌+◌, ◌≤◌, ◌<◌, ◌≡◌, ◌≢◌, ◌⊎◌, refl, String, true, false, Option, none, some, List, [], ◌∷◌,
  length, get_elem?,
}
use dark_kitchen_orchestrato.Prelude.Maps
use dark_kitchen_orchestrato.Engine.Retry.{Outcome, returned, Aborts, with_retry}
use dark_kitchen_orchestrato.Engine.Journal
use dark_kitchen_orchestrato.Engine.Journal.{Journal}
use dark_kitchen_orchestrato.Engine.AgentStep.{runner, gave, failed, attempt, run_agent_step}
use dark_kitchen_orchestrato.Engine.Keys.{
  WorkflowBuilder, new_builder, root_key_context, build_call_key, next_segment, next_key, phase,
}
use dark_kitchen_orchestrato.Engine.Parallel.{
  Pool, min, open_pool, advance, settle, launches, settles, fires, Reach, here, next,
}
use dark_kitchen_orchestrato.Engine.Parallel.Order.{parallel_returns}
use dark_kitchen_orchestrato.Engine.Parallel.Progress.{worked, parallel_ends}
use dark_kitchen_orchestrato.Engine.Parallel.Stopping.{fired-stops}
use dark_kitchen_orchestrato.Engine.Body.{
  Body, ends, calls_agent, enters_phase, Outside, Played, agent, play,
}
use dark_kitchen_orchestrato.Engine.Body.Replay.{play_replays}

-- Three factories, named by texts, for two workers; factory `i` can only return `i + 10`.
abbrev names : List String
names = "a" ∷ "b" ∷ "c" ∷ []

abbrev Allowed : ℕ → Outcome String ℕ → Type 0
Allowed i o = o ≡ returned (i + 10)

abbrev opened : Pool String String ℕ
opened = open_pool 2 names false

abbrev one_launched : Pool String String ℕ
one_launched = advance (record opened { unlaunched = 1 })

abbrev both_launched : Pool String String ℕ
both_launched = advance (record one_launched { unlaunched = 0 })

-- The second factory ends before the first one, and the third one before it too.
abbrev second_ended : Pool String String ℕ
second_ended = settle 1 (returned 11) (record both_launched { running = 0 ∷ [] })

abbrev third_ended : Pool String String ℕ
third_ended = settle 2 (returned 12) (record second_ended { running = 0 ∷ [] })

abbrev all_ended : Pool String String ℕ
all_ended = settle 0 (returned 10) (record third_ended { running = [] })

both-Reach : Reach Allowed opened both_launched
unfolding open_pool advance
both-Reach = next (next here (launches 1 refl)) (launches 0 refl)

all-Reach : Reach Allowed opened all_ended
unfolding open_pool advance settle
all-Reach =
    next
      (next (next both-Reach (settles 1 (returned 11) (0 ∷ []) refl refl))
        (settles 2 (returned 12) (0 ∷ []) refl refl))
      (settles 0 (returned 10) [] refl refl)

abbrev in_order : List (Option ℕ)
in_order = some 10 ∷ some 11 ∷ some 12 ∷ []

all_returned : all_ended.outcome ≡ some (returned in_order)
unfolding open_pool advance settle
all_returned = refl

parallel_returns_example :
    (length in_order ≡ length names)
    × (all_ended.started ≡ names)
    × ((i : ℕ)
        → i < length names
        → (a : ℕ) × (get_elem? in_order i ≡ some (some a)) × Allowed i (returned a))
parallel_returns_example =
    parallel_returns Allowed 1 names false all_ended in_order all-Reach all_returned

abbrev each_answers : (i : ℕ) → (o : Outcome String ℕ) × Allowed i o
each_answers i = (returned (i + 10), refl)

parallel_ends_example :
    (worked Allowed both-Reach ≤ min 2 (length names) + length names)
    × ((both_launched.outcome ≢ none)
        ⊎ ((t : Pool String String ℕ) × (q : Reach Allowed both_launched t) × (worked Allowed q
              ≡ 1)))
parallel_ends_example = parallel_ends Allowed 1 names false both_launched each_answers both-Reach

-- The signal fires while two factories run.
abbrev fired : Pool String String ℕ
fired = record both_launched { aborted = true }

abbrev after_fired : Pool String String ℕ
after_fired = settle 0 (returned 10) (record fired { running = 1 ∷ [] })

fired-Reach : Reach Allowed opened fired
fired-Reach = next both-Reach fires

after_fired-Reach : Reach Allowed fired after_fired
unfolding open_pool advance settle
after_fired-Reach = next here (settles 0 (returned 10) (1 ∷ []) refl refl)

fired_aborted : fired.aborted ≡ true
fired_aborted = refl

fired-stops_example :
    (after_fired.started ≡ fired.started)
    × (fired.index < length names
        → (rs : List (Option ℕ)) → after_fired.outcome ≢ some (returned rs))
fired-stops_example =
    fired-stops Allowed 1 names false fired after_fired fired-Reach fired_aborted after_fired-Reach

-- A body with a planner and, in a phase, a coder.
abbrev planned : Body String String
planned =
    calls_agent 0 "planner" none
      λ plan. enters_phase 0 "build" (calls_agent 1 "coder" none λ code. ends code.result)

abbrev calm : Aborts
calm = record { before = λ n. false; after = λ n. false; delaying = λ n. false }

abbrev working : ℕ → Outside String String
working n = record {
  aborts = calm;
  harness = record { reading = false; resolve = λ k. runner; run = λ k o. ([], gave "done") };
}

-- A harness that has broken down since.
abbrev down : ℕ → Outside String String
down n = record {
  aborts = calm;
  harness = record {
    reading = false;
    resolve = λ k. runner;
    run = λ k o. ([], failed (record { text = "down"; kind = none }));
  };
}

abbrev roots : List WorkflowBuilder
roots = new_builder (root_key_context "run") ∷ []

abbrev empty_journal : Journal String String
empty_journal = record { store = []; in_flight = [] }

abbrev first_run : Played String String String
first_run = play (λ n. "1") (λ t. t) working planned 0 roots empty_journal

first_returned : first_run.outcome ≡ returned "done"
unfolding play agent next_key next_segment phase build_call_key run_agent_step with_retry attempt
    Maps.get Maps.put Journal.get Journal.clear_in_flight Journal.set Journal.get_in_flight
first_returned = refl

play_replays_example :
    play (λ n. "1") (λ t. t) down planned 0 roots first_run.journal
    ≡ record { journal = first_run.journal; runs = 0; outcome = returned "done" }
play_replays_example =
    play_replays (λ n. "1") (λ t. t) working down (λ n. refl) planned roots empty_journal "done"
      first_returned
