-- ===== src/Observability.antt =====
-- src/coding_agent/observability: what the runtime tells of a run while it goes on.
pub mod Stream
pub mod Streamed
pub mod Fragments
pub mod Events
pub mod Bus
pub mod Emit
pub mod Delivery
pub mod Account
pub mod Numbering
pub mod Replay
pub mod Invariant
pub mod Steps
pub mod Draining
pub mod Reach
mod Examples
