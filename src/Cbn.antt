-- ===== src/Cbn.antt =====
-- The central bank's rules: src/shared/middleware/cbn-compliance.ts, and the required documents of
-- src/modules/customer/services/customer-transaction.service.ts. Amounts are in cents. The figures
-- in the messages of refusals are left out.
pub mod Rules
pub mod Limits
pub mod Disbursement
pub mod Documents
pub mod Middleware
