-- ===== src/LoadBalancer.antt =====
-- The service controller (exoscale/loadbalancer.go and exoscale/patcher.go).
pub mod Session
pub mod Annotations
pub mod Sends
pub mod Done
pub mod Acts
pub mod Runs
pub mod Emits
pub mod Keeps
pub mod Build
pub mod Fetch
pub mod Update
pub mod Lawful
pub mod Converge
pub mod Ensure
pub mod Delete
