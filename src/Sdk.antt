-- ===== src/Sdk.antt =====
-- The parts of `crates/sdk` that the batcher shares with its clients.
pub mod Constants
pub mod Types
pub mod Merkle
pub mod Fees
pub mod Errors
pub mod Messaging
pub mod Submit
pub mod Queries
