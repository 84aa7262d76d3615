-- ===== src/Orchestrator.antt =====
-- InMemoryOrchestrator of control_center/services/orchestrator.py.
pub mod State
pub mod Refresh
pub mod Advance
pub mod Handlers
pub mod Detail
pub mod Summary
pub mod Approval
pub mod Requests
mod Samples
