-- ===== src/Keyed/Rescale.antt =====
-- What the routers of malstrom-core/src/keyed/distributed/message_router do together in the course
-- of one change of the worker set.
pub mod Phases
pub mod Routes
pub mod Handover
