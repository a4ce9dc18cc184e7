-- ===== src/Receiver/Tests.antt =====
-- The receiver's theorems at concrete inputs, and runs of the model.
mod Blocks
mod Flow
mod Traces
mod Abi
mod Startup
mod Options
mod Launch
