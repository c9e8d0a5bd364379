-- ===== src/Stream.antt =====
-- malstrom-core/src/stream: how an operator is scheduled.
pub mod Logic
