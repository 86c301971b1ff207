-- ===== src/Tools.antt =====
-- src/coding_agent/tools: the one way in which tools are called.
pub mod Recovery
pub mod Pipeline
pub mod Registry
pub mod Snapshot
pub mod Invoke
pub mod Trace
pub mod Guarded
mod Examples
