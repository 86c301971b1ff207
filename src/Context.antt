-- ===== src/Context.antt =====
-- src/coding_agent/context: how a history is shortened to fit the model's window.
pub mod Groups
pub mod Grouping
pub mod Cut
pub mod Cutting
pub mod Summary
pub mod Rendering
pub mod Compactor
pub mod Extraction
pub mod Compaction
pub mod Stored
pub mod Truncation
pub mod Truncating
mod Examples
