-- ===== src/Audit.antt =====
-- scripts/audit_window.py: the maintenance window in which the writers of the audit are paused.
pub mod Cluster
pub mod Plan
pub mod State
pub mod Window
