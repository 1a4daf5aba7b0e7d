-- ===== src/Runtime.antt =====
-- packages/runtime: the scheduler of the task graph, the service of interventions, the life cycle
-- of pull requests, and the durable journals.
pub mod Scheduler
pub mod Intervention
pub mod Interventions
pub mod PrLifecycle
pub mod DurableJournal
pub mod AgentControls
mod Examples
mod InterventionExamples
mod AskHumanExamples
mod PrLifecycleExamples
mod JournalExamples
mod AgentControlExamples
