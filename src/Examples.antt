-- ===== src/Examples.antt =====
-- A small world, and the theorems at it.
mod World
mod Equality
mod Cluster
mod Data
mod Signing
mod Calls
mod Controllers
mod Issuers
