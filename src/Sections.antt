-- ===== src/Sections.antt =====
-- Sections of the configuration that validate_config of scripts/customer_migration.py checks.
pub mod NativeAudit
pub mod OptionalL3
