-- ===== src/Engine.antt =====
-- rust/sensorwatch-cli/src/engine.rs, rule evaluation: the gate of one series, the evaluation of one
-- reading, and the passes over a sample. The other modules hold the proofs.
pub mod Gate
pub mod Series
pub mod Observe
pub mod Debounce
pub mod Verdicts
pub mod Closing
pub mod AllClear
pub mod Total
pub mod Origin
pub mod Selection
