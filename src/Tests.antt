-- ===== src/Tests.antt =====
-- Runs of the modelled code on small inputs.
pub mod Stores
pub mod Nodes
pub mod Shards
pub mod Patches
pub mod Guards
pub mod Jobs
pub mod Writes
pub mod Queries
pub mod Syncs
pub mod Wals
pub mod Hints
pub mod Shared
