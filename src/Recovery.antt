-- ===== src/Recovery.antt =====
-- src/coding_agent/agent/recovery.py: what may be done with a session after the process has stopped.
pub mod Inspection
pub mod Verdicts
pub mod Justified
pub mod Results
pub mod Resolution
pub mod Plans
pub mod Settled
pub mod Collision
mod Examples
