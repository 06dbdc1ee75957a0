-- ===== src/Payments.antt =====
-- The payment services (src/modules/payments/services), over the shared database.
pub mod World
pub mod Deposits
pub mod Accounts
pub mod Outbound
pub mod Reconciliation
pub mod Confirmations
pub mod History
