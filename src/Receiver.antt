-- ===== src/Receiver.antt =====
-- The receiver plugin (chronicle-receiver/receiver_plugin.cpp, class receiver_plugin_impl), part
-- by part.
pub mod State
pub mod Message
pub mod Abi
pub mod Deltas
pub mod Traces
pub mod Flow
pub mod Interactive
pub mod Prepare
pub mod Blocks
pub mod Startup
pub mod Snapshot
pub mod Options
pub mod Launch
pub mod Samples
mod Tests
