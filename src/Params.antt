-- ===== src/Params.antt =====
-- The parameters of the infrastructure templates: scripts/customer_migration.py.
pub mod Access
pub mod Component
pub mod Configured
pub mod Platform
pub mod Workloads
pub mod Tables
