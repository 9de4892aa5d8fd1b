-- ===== src/Scheduler.antt =====
-- The scheduler of src/agent_physics/scheduler.py.
pub mod Choices
pub mod Plans
pub mod Ranks
pub mod Dispatch
pub mod Loop
pub mod Entries
pub mod Invariant
pub mod Started
pub mod Ended
pub mod Refused
pub mod Waiting
pub mod Fuel
pub mod Dispatched
pub mod Passes
pub mod Future
pub mod Covers
pub mod Exact
pub mod Accepted
pub mod Bounded
pub mod Examples
