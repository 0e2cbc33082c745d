-- ===== src/Replay.antt =====
-- rust/sensorwatch-cli/src/replay.rs: reading the recorded lines back.
pub mod Tokens
pub mod Pieces
pub mod Lines
pub mod Chunks
pub mod Parse
pub mod Ticks
pub mod Window
pub mod Lockstep
pub mod Finishes
pub mod Precheck
