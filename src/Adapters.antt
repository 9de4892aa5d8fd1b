-- ===== src/Adapters.antt =====
-- src/agent_physics/adapter_capabilities.py and the capability contracts of
-- src/agent_physics/contracts.py: which worker may serve a task.
pub mod Capabilities
pub mod Sufficiency
pub mod Examples
