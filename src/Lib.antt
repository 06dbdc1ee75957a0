-- ===== src/Lib.antt =====
-- Verification of the SohCahToa API, a foreign exchange service: customers and their transactions,
-- payments, the central bank's rules, the checks against money laundering, and the sign-in of
-- everybody. Paths are from the repository's root.
--
-- The parts and how they interact. Users sign in with passwords and one-time passwords and get
-- sessions (auth.service.ts); permissions.ts decides what administrators may call. A customer, or an
-- agent for the customer, opens a transaction and uploads its documents
-- (customer-transaction.service.ts, agent-transaction.service.ts); documents are verified
-- (verification.service.ts) and administrators decide (admin-transactions.service.ts). Customers
-- pay naira into a virtual account that Providus keeps for their transaction; a webhook reports the
-- deposit, which is verified with Providus and confirms the transaction
-- (deposit-verification.service.ts, virtual-account.service.ts). Payouts go out as settlements that
-- are approved and processed, alone or in batches, and reconciled afterwards
-- (settlement.service.ts, settlement-reconciliation.service.ts). These four services of
-- src/modules/payments/services share the database, the Providus client and the notification
-- service. A middleware checks requests against limits, cash rules, KYC and documents
-- (src/shared/middleware/cbn-compliance.ts); the compliance service scores transactions.
--
-- Files:
--   Errors          src/shared/utils/errors.ts: AppError and its codes, errors as values
--   Exec            asynchronous methods as functions from a database to a result and a database;
--                   what was written before an error stays written. Exec.Keeps has the rules for
--                   invariants
--   Doubles         JavaScript's numbers where the code compares amounts
--   Table, Store    the tables of prisma/schema.prisma as lists of rows (Store.Rows), and reads,
--                   `update` and `create` with the failures that a missing key and a unique column
--                   give (Store.Writes)
--   Payments.World  the clock, the Providus endpoint and the notification service, parameters
--                   of every method
--   Payments.Deposits       handleDepositWebhook is handle_deposit_webhook, and likewise
--                   verify_deposit, confirm_transaction_deposit and Manual.manual_verify_deposit;
--                   Amounts and Calls prove an invariant of them, Repeats is about a webhook that
--                   is sent again
--   Payments.Accounts       createVirtualAccount is create_virtual_account, and so on
--   Payments.Outbound       createOutboundSettlement, approveSettlement, processSettlement and
--                   completeSettlement under their names in snake case; Batches has the batch methods
--   Payments.Reconciliation createReconciliation is open_reconciliation; reconcile_settlement,
--                   reconcile_batch, resolve_variance
--   Payments.Confirmations, Payments.History   any sequence of calls of the services, for
--                   money that comes in and for money that goes out
--   Cbn             Limits (checkTransactionLimits), Disbursement (validateDisbursementMethod),
--                   Documents (checkSupportingDocuments, and getRequiredDocuments of
--                   src/modules/customer/services/customer-transaction.service.ts), Middleware
--                   (checkKycStatus and the combination)
--   Aml             src/modules/compliance/services/compliance.service.ts: perform_aml_check and
--                   review_check
--   Admin           src/modules/admin/services/admin-transactions.service.ts: the decisions of
--                   administrators under their names in snake case (approveTransactionDocument
--                   is approve_document, and so on); Admin.History has any sequence of them
--   Customer        src/modules/customer/services/customer-transaction.service.ts: Creation and Quotes
--                   (createTransaction), Uploads (uploadDocuments), Pickups (the slots of terminals),
--                   Groups and Totals (getTotalsByGroup); Statuses and History have any sequence
--                   of calls
--   Documents       src/modules/documents/services/verification.service.ts: requests, automated checks
--                   and reviews; Support and Evidence prove an invariant of any calls
--   Agents          src/modules/agents/services/agent-transaction.service.ts: recordDisbursement, and the
--                   calls of the customer service on its database
--   Permissions     src/shared/middleware/permissions.ts: requirePermission is require_permission
--   Csv             src/shared/utils/csv.ts: to_csv_value and build_csv, with a reader (Csv.Reader)
--   Rates           src/modules/payments/services/payment.service.ts: get_exchange_rate and
--                   create_exchange_rate, with the cache
--   RateLimit       RedisRateLimiter of src/shared/middleware/rate-limiter.ts, over Redis as a
--                   record of operations and laws; RateLimit.Counts has calls in a row
--   Validators      src/shared/utils/validators.ts and password.ts, on texts as lists of codes
--   Auth            src/modules/auth/services/auth.service.ts: Otp (sendOtp, validateOtp), Login (login,
--                   logout, refreshToken), Passwords (forgotPassword, resetPassword, changeAgentPassword),
--                   Agents, Signup and Onboarding (from a BVN or a passport to an account), Kyc (verifyKyc).
--                   Redis and the hashing of passwords are records of operations and laws
--                   (Auth.Rows); Sessions states what the methods do to the sessions of users
--   Tests           runs on concrete data, and an instance of each theorem
--
-- Correspondence. Each method is one function with its guards in the order of the code.
-- Identifiers, session ids and times are numbers; a column that may be null is an Option. Amounts
-- are whole numbers: ten-thousandths of a unit in Payments, cents in Cbn, Aml, Customer and Agents.
-- Where the code compares sums and differences of them with a tolerance, Doubles computes the
-- double-precision numbers that it compares; the totals of the groups hold in any arithmetic. The
-- 1024 steps of fuel there are the exponents of a double. Loops over rows are structural recursion
-- on lists: there is no other fuel. A method runs to its end before the next one starts; the world
-- may differ from call to call.
--
-- Not modelled: JSON columns, texts of notifications, log lines and the figures in some messages; the
-- generators of ids and reference numbers, whose values are arguments; list queries; the HTTP
-- layer; the clients of external services, which are parameters. Of authentication, the contents of
-- tokens, profiles, the audit trail and mails, and the personal data that no decision
-- reads. Rates that administrators change and tickets are not modelled.
pub mod Prelude
pub mod Errors
pub mod Exec
pub mod Doubles
pub mod Table
pub mod Validators
pub mod Store
pub mod Admin
pub mod Aml
pub mod Cbn
pub mod Auth
pub mod Customer
pub mod Documents
pub mod Agents
pub mod Permissions
pub mod Csv
pub mod Payments
pub mod Rates
pub mod RateLimit
pub mod Tests
