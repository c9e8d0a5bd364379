-- ===== src/Sinks.antt =====
-- malstrom-core/src/sinks: where the records of a job go.
pub mod Stateful
pub mod Stateless
