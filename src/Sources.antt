-- ===== src/Sources.antt =====
-- malstrom-core/src/sources: where the records of a job come from.
pub mod Stateful
pub mod Stateless
pub mod SingleIterator
