-- ===== src/Tests.antt =====
-- An Exoscale account and a Kubernetes cluster in memory, and runs of the program on them.
pub mod World
pub mod LawfulCloud
pub mod DelayedCloud
pub mod LoadBalancers
pub mod Nodes
pub mod Reported
pub mod Clients
pub mod Command
pub mod Convergence
pub mod Deletion
pub mod Undone
pub mod Shared
pub mod Status
pub mod Answers
pub mod Hosts
pub mod Unsupported
