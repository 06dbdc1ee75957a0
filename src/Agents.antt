-- ===== src/Agents.antt =====
-- What agents do for their customers: src/modules/agents/services/agent-transaction.service.ts.
pub mod Rows
pub mod Transactions
pub mod Failures
pub mod Disbursement
