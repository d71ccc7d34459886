-- ===== src/Dns.antt =====
-- scripts/dns_runtime.py: the cutover of the DNS records with a checkpoint and a rollback.
pub mod Change
pub mod Client
pub mod Edge
pub mod Plan
pub mod Settings
pub mod Zone
