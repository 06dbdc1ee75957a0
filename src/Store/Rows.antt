-- ===== src/Store/Rows.antt =====
-- The rows of prisma/schema.prisma that the payment services use, with its enums.
-- Identifiers (uuids, account numbers, session ids, user ids) are only compared for equality and
-- are numbers here; times are numbers of milliseconds. Amounts are counted in ten-thousandths of
-- the currency unit, the variance of a reconciliation as the double that is sent, in units of 2^-66.
-- JSON columns are left out.
use sohcahtoa_api.Prelude.{ℕ, String, Bool, Option, ℤ}

pub data TransactionStatus : Type 0 where
  draft awaiting_verification verification_in_progress verification_completed : TransactionStatus
  awaiting_deposit deposit_pending deposit_confirmed compliance_review : TransactionStatus
  admin_approval_pending approved disbursement_in_progress completed : TransactionStatus
  rejected cancelled : TransactionStatus

pub data TransactionStep : Type 0 where
  personal_info document_upload document_verification amount_calculation : TransactionStep
  deposit_info deposit_confirmation compliance_check admin_review disbursement : TransactionStep

pub record Transaction : Type 0 where
  pub id : ℕ
  pub user_id : ℕ
  pub status : TransactionStatus
  pub current_step : TransactionStep
  pub naira_equivalent : Option ℕ
  pub completed_at : Option ℕ

pub data StepStatus : Type 0 where
  in_progress completed : StepStatus

pub record StepLog : Type 0 where
  pub transaction_id : ℕ
  pub step : TransactionStep
  pub status : StepStatus
  pub completed_at : Option ℕ

pub data VirtualAccountType : Type 0 where
  dynamic reserved : VirtualAccountType

pub data VirtualAccountStatus : Type 0 where
  active inactive blacklisted : VirtualAccountStatus

pub record VirtualAccount : Type 0 where
  pub id : ℕ
  pub user_id : Option ℕ
  pub transaction_id : Option ℕ
  pub account_number : ℕ
  pub account_name : String
  pub type : VirtualAccountType
  pub status : VirtualAccountStatus
  pub is_blacklisted : Bool
  pub blacklisted_at : Option ℕ
  pub blacklist_reason : Option String
  pub expires_at : Option ℕ

pub data DepositStatus : Type 0 where
  pending verified settled failed : DepositStatus

pub record Deposit : Type 0 where
  pub id : ℕ
  pub virtual_account_id : ℕ
  pub transaction_id : Option ℕ
  pub session_id : ℕ
  pub settlement_id : Option ℕ
  pub account_number : ℕ
  pub amount : ℕ
  pub settled_amount : ℕ
  pub fee_amount : ℕ
  pub vat_amount : ℕ
  pub currency : String
  pub source_account_number : Option String
  pub source_account_name : Option String
  pub source_bank_name : Option String
  pub channel_id : Option String
  pub tran_remarks : Option String
  pub tran_date_time : Option ℕ
  pub status : DepositStatus
  pub verified_at : Option ℕ
  pub webhook_received_at : Option ℕ

pub data PaymentStatus : Type 0 where
  pending awaiting_confirmation confirmed failed refunded : PaymentStatus

pub record Settlement : Type 0 where
  pub transaction_id : ℕ
  pub amount : ℕ
  pub currency : String
  pub status : PaymentStatus
  pub payment_method : String
  pub payment_reference : Option ℕ
  pub deposited_at : Option ℕ
  pub confirmed_at : Option ℕ
  pub confirmed_by : Option String

pub data SettlementStatus : Type 0 where
  pending processing submitted completed failed cancelled requires_approval : SettlementStatus

pub record OutboundSettlement : Type 0 where
  pub id : ℕ
  pub batch_id : Option ℕ
  pub transaction_id : Option ℕ
  pub reference_number : String
  pub amount : ℕ
  pub currency : String
  pub status : SettlementStatus
  pub beneficiary_name : String
  pub beneficiary_bank : Option String
  pub beneficiary_account : Option String
  pub beneficiary_swift : Option String
  pub beneficiary_iban : Option String
  pub beneficiary_country : Option String
  pub beneficiary_address : Option String
  pub payment_method : String
  pub payment_reference : Option String
  pub payment_proof : Option String
  pub initiated_by : ℕ
  pub approved_by : Option ℕ
  pub processed_by : Option ℕ
  pub approved_at : Option ℕ
  pub processed_at : Option ℕ
  pub completed_at : Option ℕ
  pub failed_at : Option ℕ
  pub failure_reason : Option String
  pub notes : Option String

pub data SettlementDirection : Type 0 where
  inbound outbound : SettlementDirection

pub record SettlementBatch : Type 0 where
  pub id : ℕ
  pub batch_number : String
  pub direction : SettlementDirection
  pub total_amount : ℕ
  pub total_count : ℕ
  pub currency : String
  pub status : SettlementStatus
  pub description : Option String
  pub created_by : ℕ
  pub approved_by : Option ℕ
  pub processed_by : Option ℕ
  pub approved_at : Option ℕ
  pub submitted_at : Option ℕ

-- The `status` column is a string with these values.
pub data ReconciliationStatus : Type 0 where
  pending matched variance resolved : ReconciliationStatus

pub data ReconciliationType : Type 0 where
  manual auto providus_verify : ReconciliationType

pub record Reconciliation : Type 0 where
  pub id : ℕ
  pub settlement_id : ℕ
  pub reconciliation_type : ReconciliationType
  pub expected_amount : ℕ
  pub actual_amount : Option ℕ
  pub variance : Option ℤ
  pub status : ReconciliationStatus
  pub reconciled_by : Option ℕ
  pub reconciled_at : Option ℕ
  pub notes : Option String

-- What a call of sendNotification is about.
pub record Notification : Type 0 where
  pub user_id : ℕ
  pub title : String
  pub transaction_id : ℕ
