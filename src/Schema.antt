-- ===== src/Schema.antt =====
-- LiteLLM/runtime/schema_migration.py: which migrations of the database are still to be applied.
pub mod History
