-- ===== src/Instances.antt =====
-- The node controllers (exoscale/instances.go, exoscale/instances_v2.go and exoscale/zones.go) with
-- their configuration (exoscale/instances_config.go) and the look-up of an instance
-- (exoscale/common.go).
pub mod Config
pub mod Provider
pub mod Labels
pub mod Addresses
pub mod Legacy
pub mod V2
pub mod Zones
pub mod Overrides
pub mod Disabled
pub mod Agreement
pub mod Metadata
pub mod Reported
