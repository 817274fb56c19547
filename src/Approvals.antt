-- ===== src/Approvals.antt =====
-- packages/white-engine/nightrecon_white_engine/approval_engine.py: approval requests, the history
-- of their decisions, and the grants that follow from it.
pub mod Records
pub mod Checks
pub mod Payload
pub mod History
pub mod Replay
pub mod Status
pub mod Workflow
pub mod Grant
pub mod Sources
pub mod Invariant
pub mod Soundness
pub mod Quorum
pub mod Standing
pub mod Grants
pub mod Operations
pub mod Rules
pub mod Recording
pub mod Deciding
pub mod Recorded
pub mod Terminal
