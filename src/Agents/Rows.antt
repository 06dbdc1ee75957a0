-- ===== src/Agents/Rows.antt =====
-- The rows that agent-transaction.service.ts reads and writes beside the customer service's, and its
-- requests. Amounts are in cents. A request's empty and missing fields are none.
use sohcahtoa_api.Prelude.{ℕ, String, Bool, Option, List, Text}
use sohcahtoa_api.Errors.{Result}
use sohcahtoa_api.Store.Rows.{SettlementStatus}
use sohcahtoa_api.Cbn.Rules.{DisbursementMethod}
use sohcahtoa_api.Customer.Rows.{CustomerDb, File}

pub record AgentUser : Type 0 where
  pub id : ℕ
  pub email : Text
  pub is_agent : Bool

pub record AgentProfile : Type 0 where
  pub id : ℕ
  pub email : Text

pub record HistoryNote : Type 0 where
  pub transaction_id : ℕ
  pub action : String
  pub notes : Option String

pub record Payout : Type 0 where
  pub id : ℕ
  pub transaction_id : Option ℕ
  pub reference_number : ℕ
  pub amount : ℕ
  pub currency : Text
  pub status : SettlementStatus
  pub payment_method : DisbursementMethod
  pub payment_proof : Option String
  pub notes : Option String
  pub initiated_by : ℕ
  pub approved_by : Option ℕ

pub record AgentDb : Type 0 where
  pub users : List AgentUser
  pub agents : List AgentProfile
  pub customer : CustomerDb
  pub payouts : List Payout
  pub history : List HistoryNote
  pub files : List String  -- the image service's, by their URLs

-- a total that is not positive is 0
pub record DisbursementInput : Type 0 where
  pub transaction_id : Option ℕ
  pub disbursement_method : Option DisbursementMethod
  pub total_amount : ℕ
  pub receipt_file : Option File
  pub notes : Option String

-- the upload of a file to the image service, and the generators
pub record AgentWorld : Type 0 where
  pub fresh_id : ℕ
  pub reference_number : ℕ
  pub upload_file : File → Result String
