-- ===== src/Digest.antt =====
-- rust/sensorwatch-cli/src/digest.rs: the digest of a window. `Duration` and `RoundTrip` are about
-- `--last`, `Aggregate` and its proofs about the streaming pass, `Gaps` about the retained gaps, and
-- `Fit` about the byte cap.
pub mod Duration
pub mod RoundTrip
pub mod Gaps
pub mod Aggregate
pub mod Retained
pub mod Largest
pub mod Counts
pub mod Bounds
pub mod Rows
pub mod Fit
pub mod Search
pub mod Shrink
pub mod Emit
pub mod When
pub mod Candidates
pub mod Resolved
