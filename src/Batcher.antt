-- ===== src/Batcher.antt =====
-- The batcher, `crates/batcher/src`.
pub mod Queue
pub mod State
pub mod Checks
pub mod Replace
pub mod Evict
pub mod Accounts
pub mod Submit
pub mod Tasks
pub mod Queries
pub mod Posting
pub mod Removal
pub mod Restore
pub mod Cleanup
pub mod Errors
pub mod Retry
pub mod Gas
pub mod World
pub mod Finalize
pub mod NewBlock
pub mod Ethereum
pub mod Connection
pub mod Events
pub mod Life
