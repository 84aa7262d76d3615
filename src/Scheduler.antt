-- ===== src/Scheduler.antt =====
-- WorkflowScheduler of control_center/services/workflow_scheduler.py and the modules beside it.
pub mod State
pub mod Dependencies
mod Due
pub mod Progress
pub mod Status
mod Verdict
pub mod Create
pub mod Items
pub mod Discussion
pub mod Control
pub mod Moves
pub mod Rules
pub mod Quiet
pub mod Steps
pub mod Release
pub mod Add
pub mod Load
pub mod Metrics
mod Counts
pub mod History
pub mod Lives
pub mod Invariant
pub mod Canceled
mod Samples
pub mod Durable
