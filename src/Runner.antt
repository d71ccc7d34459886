-- ===== src/Runner.antt =====
-- The private runner's connectivity: scripts/runner_connectivity.py.
pub mod Connectivity
pub mod Target
pub mod Vault
pub mod Vnet
