-- ===== src/ResourceLedger.antt =====
-- The resource ledger of src/agent_physics/resource_ledger.py: accounting of tokens, cost and
-- context bytes for local runs, and the independent replay that audits its event log.
pub mod Vector
pub mod Events
pub mod Budget
pub mod Invariant
pub mod Decisions
pub mod Preservation
pub mod Calls
pub mod Replay
pub mod Audit
pub mod Checks
pub mod Genuine
pub mod History
pub mod Logs
pub mod Accounting
pub mod Examples
