-- ===== src/Mission.antt =====
-- services/mission: missions, their task graphs, evidence and recovery.
pub mod Ids
pub mod Tables
pub mod Control
pub mod TaskGraph
pub mod Evidence
pub mod Pipeline
pub mod Strategy
pub mod Recovery
pub mod Reports
pub mod Costs
pub mod Idempotency
pub mod Replies
pub mod Decomposition
pub mod Verdict
pub mod Payloads
pub mod Dispatch
pub mod Restart
