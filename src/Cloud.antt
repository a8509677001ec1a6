-- ===== src/Cloud.antt =====
-- The two services that the provider talks to: the Exoscale API through `exoscaleClient`, and the
-- Kubernetes API.
pub mod Exoscale
pub mod Kubernetes
pub mod Refreshable
