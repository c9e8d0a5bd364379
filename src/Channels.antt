-- ===== src/Channels.antt =====
-- malstrom-core/src/channels: the edges of the stream graph on one worker.
pub mod Spsc
pub mod Output
pub mod Input
