-- ===== src/Contracts.antt =====
-- The contracts of src/agent_physics/contracts.py, with the errors that their `validate` lists.
pub mod Ports
pub mod Profiles
pub mod Tasks
pub mod Envelopes
pub mod Examples
