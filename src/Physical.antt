-- ===== src/Physical.antt =====
-- The physical admission of src/agent_physics/physical_resources.py.
pub mod Arithmetic
pub mod Amounts
pub mod Inputs
pub mod Paths
pub mod Analysis
pub mod Report
pub mod Signing
pub mod Sums
pub mod Peaks
pub mod Ranks
pub mod Chains
pub mod CriticalPath
pub mod PathEnds
pub mod Selected
pub mod Judged
pub mod Admitted
pub mod Times
pub mod Following
pub mod Protected
pub mod Mandatory
pub mod Examples
