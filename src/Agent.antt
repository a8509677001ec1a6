-- ===== src/Agent.antt =====
-- The SKS agent (exoscale/sks_agent.go and exoscale/sks_agent_runner_node_csr_validation.go).
pub mod Validation
pub mod Runner
pub mod Liveness
pub mod Termination
pub mod Safety
