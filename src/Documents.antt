-- ===== src/Documents.antt =====
-- The verification of documents: src/modules/documents/services/verification.service.ts. What the
-- external service answers besides the verdict, the durations of calls and log lines are left out.
pub mod Rows
pub mod Checks
pub mod Requests
pub mod Support
pub mod Evidence
