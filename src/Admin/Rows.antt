-- ===== src/Admin/Rows.antt =====
-- The rows of prisma/schema.prisma that administrators decide about, and the events.
use sohcahtoa_api.Prelude.{ℕ, String, Option, List}
use sohcahtoa_api.Store.Rows.{TransactionStatus, TransactionStep, StepStatus}

pub record Transaction : Type 0 where
  pub id : ℕ
  pub user_id : ℕ
  pub status : TransactionStatus
  pub current_step : TransactionStep
  pub rejection_reason : Option String
  pub rejected_at : Option ℕ
  pub disbursement_method : Option String

pub data VerificationStatus : Type 0 where
  pending in_progress verified failed requires_manual_review : VerificationStatus

pub record Document : Type 0 where
  pub id : ℕ
  pub transaction_id : ℕ
  pub document_type : String
  pub verification_status : VerificationStatus
  pub verification_notes : Option String
  pub verified_at : Option ℕ
  pub verified_by : Option ℕ

pub record StepEntry : Type 0 where
  pub transaction_id : ℕ
  pub step : TransactionStep
  pub status : StepStatus
  pub completed_at : Option ℕ

pub record HistoryEntry : Type 0 where
  pub transaction_id : ℕ
  pub action : String
  pub performed_by : ℕ
  pub notes : Option String

pub data Event : Type 0 where
  transaction_approved transaction_rejected : ℕ → ℕ → Event
  document_verified document_rejected : ℕ → ℕ → ℕ → Event

pub record AdminDb : Type 0 where
  pub transactions : List Transaction
  pub documents : List Document
  pub steps : List StepEntry
  pub history : List HistoryEntry
  pub events : List Event
