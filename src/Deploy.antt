-- ===== src/Deploy.antt =====
-- The script that deploys LiteLLM with a managed identity to AKS: LiteLLM/deploy_mi_aks_litellm.py.
pub mod Script
pub mod Settings
pub mod Logic
pub mod Objects
pub mod Tools
pub mod Azure
pub mod Kubernetes
pub mod Config
pub mod Steps
pub mod Still
pub mod Main
