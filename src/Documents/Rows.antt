-- ===== src/Documents/Rows.antt =====
-- The rows of prisma/schema.prisma that the verification of documents uses, and its event.
use sohcahtoa_api.Prelude.{ℕ, String, Option, List}
use sohcahtoa_api.Admin.Rows.{VerificationStatus}

-- the types that have a check of their own; `other_type` is every other one
pub data VerificationType : Type 0 where
  passport bvn tin visa other_type : VerificationType

pub record VerificationRequest : Type 0 where
  pub id : ℕ
  pub transaction_id : ℕ
  pub user_id : ℕ
  pub document_id : ℕ
  pub verification_type : VerificationType
  pub status : VerificationStatus
  pub completed_at : Option ℕ

pub record VerificationResult : Type 0 where
  pub request_id : ℕ
  pub verification_type : VerificationType
  pub status : VerificationStatus
  pub provider : String
  pub confidence_score : ℕ
  pub flags : List String

pub record AdminReview : Type 0 where
  pub request_id : ℕ
  pub reviewer_id : ℕ
  pub status : VerificationStatus
  pub decision : String
  pub comments : Option String

-- EventType.VERIFICATION_COMPLETED: the transaction, its user, and the status
pub data DocumentEvent : Type 0 where
  verification_completed : ℕ → ℕ → VerificationStatus → DocumentEvent

pub record DocumentDb : Type 0 where
  pub requests : List VerificationRequest
  pub results : List VerificationResult
  pub reviews : List AdminReview
  pub api_logs : List String  -- the providers of the logged calls
  pub events : List DocumentEvent
