-- ===== src/Automation/Queue.antt =====
-- tools/task_automation/queue.py: the durable queue of approved objectives.
pub mod Objectives
pub mod Leases
pub mod Tables
pub mod Calls
pub mod Progress
pub mod Moves
pub mod Fencing
pub mod Integrity
pub mod Reading
