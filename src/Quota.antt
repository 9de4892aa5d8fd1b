-- ===== src/Quota.antt =====
-- The provider quota of src/agent_physics/provider_quota.py: the clock, the limits, the buckets, and
-- the class `ProviderQuotaPhysics` with its calls.
pub mod Buckets
pub mod Identities
pub mod Requests
pub mod State
pub mod Admission
pub mod Settlement
pub mod Calls
pub mod Invariant
pub mod Settled
pub mod Ends
pub mod Permitted
pub mod Admitted
pub mod Decisions
pub mod Histories
pub mod Digests
pub mod Bounds
pub mod Examples
