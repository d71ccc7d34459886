-- ===== src/Merge.antt =====
-- local_execution/merge_config.py: merging one Stage 2-9 fragment into a customer configuration.
pub mod Deep
pub mod Derived
pub mod Stage
pub mod Placeholders
pub mod Paths
