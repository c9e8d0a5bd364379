-- ===== src/Coordinator.antt =====
-- malstrom-core/src/coordinator: the coordinator of a job.
pub mod WatchMap
pub mod State
pub mod Reconfig
pub mod Loop
