-- ===== src/Agent.antt =====
-- The gate of the agent and the policy of the sandbox behind it.
pub mod Sandbox
pub mod Gate
mod Tests
