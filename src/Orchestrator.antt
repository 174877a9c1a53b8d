-- ===== src/Orchestrator.antt =====
-- internal/orchestrator: what an agent is allowed to be configured as.
pub mod RuntimePolicy
pub mod AgentConnectors
mod Examples
