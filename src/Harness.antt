-- ===== src/Harness.antt =====
-- packages/harness: the routing of semantic roles to harness profiles and runtimes.
pub mod RoleRouter
mod Examples
