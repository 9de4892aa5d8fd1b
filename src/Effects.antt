-- ===== src/Effects.antt =====
-- The effect kernel of src/agent_physics/effects.py: durable intents for writes to the world, with
-- fencing tokens, approval grants, a transactional outbox, and the in-memory target simulator.
pub mod Types
pub mod Adapter
pub mod Database
pub mod Proposals
pub mod Approval
pub mod Commit
pub mod Outbox
pub mod Calls
pub mod Evolution
pub mod Rows
pub mod Machine
pub mod Transitions
pub mod Lifecycle
pub mod Histories
pub mod Targets
pub mod Authority
pub mod Commitment
pub mod Rollback
pub mod Fencing
pub mod Grants
pub mod Examples
