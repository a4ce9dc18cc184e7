-- ===== src/Exporter.antt =====
-- The exporter to the relic database (chronicle-receiver/exp_relic_plugin.cpp).
pub mod Text
pub mod Json
pub mod Timestamp
pub mod Relic
pub mod Ws
pub mod Keys
pub mod Decoder
pub mod Dummy
mod Tests
