-- ===== src/Aggregation.antt =====
-- The aggregation mode: aggregation_mode, the service and the programs that it proves, and
-- crates/sdk/src/aggregation_layer, with which a client looks for its proof.
pub mod Blob
pub mod Commitment
pub mod Parents
pub mod Check
pub mod Programs
pub mod Service
pub mod Fetcher
