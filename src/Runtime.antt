-- ===== src/Runtime.antt =====
-- malstrom-core/src/runtime: how workers reach each other.
pub mod Threads
