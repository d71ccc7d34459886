-- ===== src/Runtime.antt =====
-- The process of the gateway: LiteLLM/runtime/application.py.
pub mod Login
