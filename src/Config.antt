-- ===== src/Config.antt =====
-- packages/config: the schema and the validation of a configuration.
pub mod Schema
pub mod Validation
mod Examples
