-- ===== src/Policy.antt =====
-- MetricsAlertPolicyStore: control_center/services/metrics_alert_policy_store.py and the modules
-- beside it.
pub mod State
pub mod Normalize
pub mod Purge
pub mod Approvals
pub mod Cleanup
pub mod Rollback
pub mod Rows
pub mod Restart
pub mod History
pub mod Linear
pub mod Paths
pub mod Effects
pub mod Authorised
pub mod Replay
pub mod Logged
pub mod Saved
pub mod Authorization
mod Samples
