-- ===== src/Store.antt =====
-- The database that the services share (prisma/schema.prisma): one list of rows for each table
-- that a modelled service reads or writes, and the notifications sent so far.
pub mod Rows
pub mod Writes
pub mod Laws
use sohcahtoa_api.Prelude.{List}
use Rows.{
  Transaction, StepLog, VirtualAccount, Deposit, Settlement, OutboundSettlement, SettlementBatch,
  Reconciliation, Notification,
}

pub record Db : Type 0 where
  pub transactions : List Transaction
  pub step_logs : List StepLog
  pub virtual_accounts : List VirtualAccount
  pub deposits : List Deposit
  pub settlements : List Settlement
  pub outbound : List OutboundSettlement
  pub batches : List SettlementBatch
  pub reconciliations : List Reconciliation
  pub notifications : List Notification
