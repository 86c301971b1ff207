-- ===== src/Storage.antt =====
-- src/coding_agent/storage: what outlives the process.
pub mod Rows
pub mod Sessions
pub mod Checkpoints
pub mod Loading
pub mod Loaded
pub mod Appending
mod Examples
