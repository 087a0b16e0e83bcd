-- ===== src/Tests.antt =====
-- A small host to run the models on, and the theorems at inputs where their hypotheses hold.
mod World
mod Leases
mod Live
mod Firewall
mod Addresses
mod Grants
mod Prefixes
mod Served
mod Queries
mod Scripts
mod Starts
