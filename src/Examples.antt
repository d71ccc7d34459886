-- ===== src/Examples.antt =====
-- Runs of the modelled code on concrete inputs.
mod Audit
mod Deploy
mod Dns
mod Gates
mod Ledger
mod Merge
mod Models
mod Params
mod Runtime
mod Schema
mod Sections
