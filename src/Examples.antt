-- ===== src/Examples.antt =====
-- Small queues and messages, and what the theorems say of them.
pub mod Data
pub mod Batches
pub mod Books
pub mod Posting
pub mod Wire
pub mod Packages
pub mod Posted
pub mod Aggregated
pub mod Proved
pub mod Fetched
pub mod Tasks
pub mod Clients
