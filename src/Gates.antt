-- ===== src/Gates.antt =====
-- scripts/customer_migration.py and scripts/migration_evidence.py: the stages of a migration and
-- the evidence that lets one follow another.
pub mod Components
pub mod Evidence
pub mod External
pub mod Ledger
pub mod Policy
pub mod Scope
pub mod Stages
