-- ===== src/Examples.antt =====
-- The theorems at concrete inputs.
pub mod Data
pub mod OfEngine
pub mod OfRules
pub mod OfDigest
pub mod OfFiles
pub mod OfWatch
pub mod OfConfig
pub mod OfBinding
pub mod OfExport
pub mod OfLogger
pub mod OfReplay
pub mod OfWhen
pub mod OfJsonl
pub mod OfReport
pub mod OfExported
