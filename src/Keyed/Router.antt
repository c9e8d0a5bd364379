-- ===== src/Keyed/Router.antt =====
-- malstrom-core/src/keyed/distributed/message_router: the routing of keyed messages, as it changes
-- state by state while the set of workers changes.
pub mod States
pub mod Routing
pub mod Lifecycle
