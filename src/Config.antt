-- ===== src/Config.antt =====
-- Package config (internal/config/config.go): the topology, its validation and its resolution.
pub mod Topology
pub mod Errors
pub mod Paths
pub mod Resolve
pub mod Claims
pub mod Linux
pub mod Validate
