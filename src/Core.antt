-- ===== src/Core.antt =====
-- core/: the agent's decisions of its own.
pub mod UserPin
pub mod AutoRevertGuard
pub mod UserRuleLookup
pub mod AgentRuntime
