-- ===== src/Automation.antt =====
-- tools/task_automation: the controller of unattended tasks and the queue of approved objectives.
pub mod Checks
pub mod Runs
pub mod Paths
pub mod Candidates
pub mod Scope
pub mod Evidence
pub mod Length
pub mod Queue
