-- ===== src/Verification.antt =====
-- packages/verification: verification runs, the durable service that keeps them, and the gate on
-- required profiles.
pub mod Runs
pub mod Service
pub mod Gate
mod Examples
mod GateExamples
