-- ===== src/Keyed.antt =====
-- malstrom-core/src/keyed: keyed streams that are distributed over the workers and redistributed
-- when their number changes.
pub mod Types
pub mod Router
pub mod Rescale
pub mod Distributor
pub mod Partitioners
