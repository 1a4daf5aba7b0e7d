-- ===== src/Workflows.antt =====
-- packages/workflows: which workflow a task gets, how verdicts are read, and the stock workflows.
pub mod Selection
pub mod Verdicts
pub mod Default
mod Examples
mod DefaultExamples
