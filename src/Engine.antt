-- ===== src/Engine.antt =====
-- The helpers of WorkflowEngine (control_center/services/workflow_engine*.py), and the gates.
pub mod State
pub mod Helpers
pub mod Execute
pub mod Reflow
pub mod Reports
pub mod Run
pub mod Spec
pub mod Bootstrap
pub mod Kept
pub mod Safe
pub mod Counts
pub mod Gates
mod Descendants
mod Terminals
mod Samples
