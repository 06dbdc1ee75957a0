-- ===== src/Customer.antt =====
-- The customer's side of a transaction: src/modules/customer/services/customer-transaction.service.ts
-- (its table of required documents is Cbn.Documents).
pub mod Rows
pub mod Quotes
pub mod Creation
pub mod Uploads
pub mod Statuses
pub mod History
pub mod Pickups
pub mod Groups
pub mod Totals
