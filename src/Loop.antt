-- ===== src/Loop.antt =====
-- src/coding_agent/agent/loop.py: the bounded loop of a run.
pub mod Types
pub mod Actions
pub mod Batch
pub mod Model
pub mod Turn
pub mod Frame
pub mod Steps
pub mod Counters
pub mod Limits
pub mod Bounded
pub mod Whole
pub mod Run
pub mod Ending
pub mod Status
pub mod Answers
pub mod Budget
pub mod Late
mod Examples
