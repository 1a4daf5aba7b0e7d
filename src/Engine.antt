-- ===== src/Engine.antt =====
-- packages/workflow-engine: the semaphore of the concurrency limit, retries, journaled agent steps,
-- call keys, the builder's calls and whole runs.
pub mod Semaphore
pub mod Retry
pub mod Journal
pub mod AgentStep
pub mod Keys
pub mod Parallel
pub mod Body
pub mod Nested
pub mod RunWorkflow
mod Examples
mod WorkflowExamples
