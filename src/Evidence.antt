-- ===== src/Evidence.antt =====
-- packages/shared-core/nightrecon_shared_core: engagement evidence, its stores and the workspace.
pub mod Equality
pub mod Contracts
pub mod Store
pub mod Views
pub mod Convergence
pub mod Files
pub mod Workspace
pub mod Lookups
pub mod Tallies
pub mod Merging
pub mod Moves
pub mod Steps
pub mod Soundness
pub mod Histories
pub mod Authorizing
pub mod Spending
pub mod Revoking
pub mod Exports
pub mod Returning
