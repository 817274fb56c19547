-- ===== src/Audit.antt =====
-- packages/white-engine/nightrecon_white_engine/audit_log.py: the trail of audit events.
pub mod Events
pub mod Trails
pub mod Codec
pub mod Equality
pub mod Stores
pub mod Built
pub mod Chains
pub mod Appending
pub mod Reading
pub mod Reloading
pub mod Histories
pub mod Guarantees
