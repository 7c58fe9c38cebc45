-- ===== src/Config.antt =====
-- config/: the OIDs, the topology and the configured OLTs and users.
pub mod Oid
pub mod Topology
pub mod Olts
pub mod Users
pub mod Fetch
