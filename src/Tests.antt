-- ===== src/Tests.antt =====
-- Runs of the model, and its theorems at concrete inputs.
pub mod Platforms
mod Scopes
pub mod Policies
mod Ledgers
mod Authorities
mod Approvals
mod Runs
mod Queues
mod Graphs
mod Streams
mod Audits
pub mod Workspaces
mod Permits
