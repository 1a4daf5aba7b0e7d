-- ===== src/Lib.antt =====
-- A verification library of the Dark Kitchen orchestrator: the decisions that the daemon takes on
-- task graphs, runs, worktrees and workflow steps, as functions that compute, with theorems on them.
--
-- The parts, and the file of each:
--   Core/Ids, Core/Domain   packages/core/src/domain.ts: identifiers, errors and entities.
--   Core/Graph              validateTaskGraph. `scan` is the loop over the dependencies, `visit` the
--                           depth-first search; Paths says what a cycle is without the search.
--   Core/Worktrees          canonicalizeWorkspacePath and validatePrimaryWorktreeInvariant.
--   Core/Runs               the tables and functions of transitions of runs and agent sessions.
--   Config/Schema           what packages/config/src/schema.ts yields.
--   Config/Validation       packages/config/src/validate.ts: what validateConfig checks once the
--                           schema is parsed.
--   Runtime/Scheduler       packages/runtime/src/scheduler.ts: computeReadyTasks and RunSupervisor.
--                           A `tick` reads the tracker's tasks, promotes dependents, computes the
--                           ready tasks with validateTaskGraph, and launches within the free slots.
--                           `Op` is what other code does while it awaits: the methods, and the
--                           launches of a tick that overlaps with it; `Slots` describes what is due.
--   Runtime/Intervention    the records and checked inputs of packages/runtime/src/interventions.ts.
--   Runtime/Interventions   InterventionService: create (with createOnce), resolve and dismiss; and
--                           askHuman in `AskHuman`, over the times at which it looks.
--   Runtime/PrLifecycle     packages/runtime/src/pr-lifecycle.ts: PrLifecycleOrchestrator; `Texts` and
--                           `Evidence` hold its helpers, `Checks`, `Merging` and `Closing` the parts
--                           of `run`.
--   Runtime/AgentControls   packages/runtime/src/agent-controls.ts: DefaultAgentControlService. `Store`
--                           holds what it saves and checks, with the rows and unique indices of
--                           packages/runtime-store-sqlite, `Rows` and `Replacement` startReplacement,
--                           `Sessions` and `RunControls` the other controls, and `Operations` the
--                           handler of events and all of them together; a registration saves the
--                           session it is given, also one of a known identifier.
--   Runtime/DurableJournal  packages/runtime/src/durable-journal.ts: InProcessDurableJournal and
--                           SqliteDurableJournal, against Engine/Journal/Contract (JournalStore, of
--                           which only the journal in memory has the optional `has`).
--   Engine/Semaphore        packages/workflow-engine/src/engine.ts: AsyncSemaphore.
--   Engine/Retry            withRetry.
--   Engine/AgentStep        runAgentStep over Engine/Journal (journal.ts) and withRetry.
--   Engine/Keys             packages/workflow-engine/src/keys.ts, and nextSegment, nextKey and phase
--                           of WorkflowBuilder in engine.ts.
--   Engine/Parallel         parallel of WorkflowBuilder: the variables that its workers share, the
--                           moves of one worker from an await to the next, and `Move` and `Reach` for
--                           all orders in which they may come.
--   Engine/Body             agent of WorkflowBuilder, and workflow bodies that call it.
--   Engine/Nested           pipeline and workflow of WorkflowBuilder.
--   Engine/RunWorkflow      runWorkflow.
--   Verification/Runs       packages/verification/src/domain.ts: runs and their order.
--   Verification/Service    packages/verification/src/durable-service.ts: request, retry, cancel,
--                           markRunning and complete.
--   Verification/Gate       packages/verification/src/domain.ts: VerificationService.
--   Harness/RoleRouter      packages/harness/src/role-router.ts: the constructor, resolve, validateAll;
--                           `Overrides` says which overrides its test passes over.
--   Workflows/Selection     packages/workflows/src/selection.ts: matchesTaskSelector and
--                           selectWorkflowForTask.
--   Workflows/Verdicts      packages/workflows/src/default.ts: how extractJsonObject and its callers read
--                           the verdict of an agent; `Printing` holds texts of JSON as an agent
--                           may write them.
--   Workflows/Default       the workflows of the same file, with `Stages` for its loops and `Flows` for
--                           the workflows, and requireWorkflowApproval of approval-gate.ts.
--   Prelude                 lists over the native numbers, ordered sets and maps, results, and code
--                           that changes a state.
--
-- How code becomes definitions. A thrown error is a value of `Result` or of a sum of the part. A
-- class is a record of its fields and each method a function on it, in Workflows and in
-- Runtime/AgentControls as code of Prelude/Stateful, which keeps the changes made before an error. A
-- `Set` or `Map` of the language is a list in the order of insertion, and so are the rows of a table,
-- which the store lists by the time of their creation. What stands behind an `await` is an argument:
-- what the awaited code answers, and what other code does to the state meanwhile (the records
-- `Environment`, `Aborts`, `Harness`, `Services`, `Host`, `Outside`). A text that is read by
-- expressions or parsers is one of `TextApi`, `JsonApi`, `Json` and `Texts`, and a database is
-- `Tables` with its laws. What the code takes from `node:path` and `node:fs` is the record `PathApi`,
-- with the law that the parent of a path is nearer to the root.
--
-- Fuel. `visit` has one unit more than the number of tasks, which bounds the depth of the search;
-- `resolve_from` one more than the depth of the path, `poll` of askHuman one more than there are
-- milliseconds to the deadline. All are proved to be enough: the first never reports `out_of_fuel`,
-- the others always reach an answer.
--
-- What is left out of the modelled parts. `runAgentStep`: the slot of the semaphore is the matter of
-- Engine/Semaphore, the events of start and completion are not recorded, and a signal that fires as
-- the offered checkpoint is dropped counts as one that fires in the runner. A journal
-- is taken to have the optional methods, as the in-memory one has. `withRetry`: the refusal of a
-- delay that is no finite number. `parallel` and `pipeline`: every factory and step is there. A body of
-- Engine/Body awaits each agent call before the next and catches nothing; parallel branches are the
-- matter of Engine/Parallel. Messages of errors keep what tells them apart. Numbers are natural
-- numbers: a limit that the code refuses counts as 0, and `available` below 0 slots is no slot.
--
-- In the workflows prompts, contexts and delays are left out, in `PrLifecycleOrchestrator` the options
-- that go to the services as they are, in `DefaultAgentControlService` the inspection of sessions and
-- the usage that a binding may hold.
--
-- The services of verification, interventions and agent controls handle one call at a time: what two
-- calls in flight do to each other is left out, as are the state file and the subscribers of
-- interventions. The identifier and the time that a call draws, the hash of a key, the redaction and
-- the normal form of texts, the order of texts of a locale and the profile that a task's body asks for
-- are arguments.
--
-- What is not modelled: clients of network services and of external agents, the store but for the rows
-- that agent controls save, the command line, and every part that the list of files above does not
-- name.
mod Prelude
pub mod Core
pub mod Config
pub mod Runtime
pub mod Engine
pub mod Verification
pub mod Harness
pub mod Workflows
