-- ===== src/Models.antt =====
-- scripts/model_configuration.py and scripts/model_sync_catalog.py: the options of a model, the
-- endpoint of its account, the catalog of the models that are wanted, and their reconciliation with
-- the ones that are configured.
pub mod Catalog
pub mod Endpoint
pub mod FieldNames
pub mod Options
pub mod Render
