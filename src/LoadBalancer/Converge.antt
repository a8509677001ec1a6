-- ===== src/LoadBalancer/Converge.antt =====
-- Where a run of `updateLoadBalancer` leaves the services of an NLB.
pub mod Settled
pub mod Rounds
pub mod Loops
pub mod Kept
pub mod Planned
pub mod Reached
pub mod Stable
pub mod Returns
pub mod Ports
pub mod Eventual
