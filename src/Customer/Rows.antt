-- ===== src/Customer/Rows.antt =====
-- The rows of prisma/schema.prisma that the customer service writes, and the requests it takes. A BVN
-- or NIN that is absent or empty is none. Amounts are in cents, rates in millionths. The purpose, the
-- destination and the numbers of tax papers are left out: the service only copies them.
use sohcahtoa_api.Prelude.{ℕ, String, Bool, Option, List, Text}
use sohcahtoa_api.Errors.{Error}
use sohcahtoa_api.Store.Rows.{TransactionStatus, TransactionStep, StepStatus}
use sohcahtoa_api.Cbn.Rules.{TransactionType, AdmissionType, TransactionMode, DisbursementMethod}
use sohcahtoa_api.Cbn.Documents.{Uploaded}

pub record Customer : Type 0 where
  pub id : ℕ

pub record Kyc : Type 0 where
  pub user_id : ℕ
  pub bvn : Option Text
  pub nin : Option Text

pub record Transaction : Type 0 where
  pub id : ℕ
  pub user_id : ℕ
  pub created_by_agent_id : Option ℕ
  pub reference_number : ℕ
  pub type : TransactionType
  pub mode : Option TransactionMode
  pub status : TransactionStatus
  pub current_step : TransactionStep
  pub currency : Text
  pub foreign_amount : Option ℕ
  pub naira_equivalent : Option ℕ  -- in cents times millionths, not rounded
  pub exchange_rate : Option ℕ
  pub disbursement_method : Option DisbursementMethod

-- a step with the admission type of its `data`
pub record StepLog : Type 0 where
  pub transaction_id : ℕ
  pub step : TransactionStep
  pub status : StepStatus
  pub admission_type : Option AdmissionType

pub record TransactionDocument : Type 0 where
  pub transaction_id : ℕ
  pub upload : Uploaded
  pub file_name : String
  pub file_size : ℕ
  pub uploaded_by : ℕ

-- `closed` stands for every other status
pub data PickupStatus : Type 0 where
  pending ready_for_pickup closed : PickupStatus

pub record CashPickup : Type 0 where
  pub transaction_id : ℕ
  pub pickup_location : String
  pub pickup_location_id : Option ℕ
  pub pickup_code : ℕ
  pub recipient_name : Option String
  pub amount : ℕ
  pub currency : Text
  pub scheduled_date : Option ℕ
  pub scheduled_time : Option ℕ
  pub expiry_date : ℕ
  pub status : PickupStatus

pub record SellRate : Type 0 where
  pub from_currency : Text
  pub to_currency : Text
  pub sell_rate : Option ℕ
  pub valid_from : ℕ
  pub valid_until : ℕ
  pub updated_at : ℕ
  pub is_active : Bool

pub record Branch : Type 0 where
  pub id : ℕ
  pub state : Text
  pub address : Text
  pub is_active : Bool
  pub is_approved : Bool  -- the status is APPROVED

pub record CustomerDb : Type 0 where
  pub users : List Customer
  pub kycs : List Kyc
  pub transactions : List Transaction
  pub steps : List StepLog
  pub documents : List TransactionDocument
  pub pickups : List CashPickup
  pub rates : List SellRate
  pub branches : List Branch

pub record DocumentLink : Type 0 where
  pub document_type : String
  pub file_url : String
  pub file_name : String
  pub file_size : Option ℕ

pub record PickupLocation : Type 0 where
  pub id : Option ℕ
  pub name : String
  pub recipient_name : Option String
  pub scheduled_date : Option ℕ
  pub scheduled_time : Option ℕ

-- The type is none where it is none of the ten valid ones; the list of documents is empty where it
-- is absent.
pub record TransactionRequest : Type 0 where
  pub user_id : ℕ
  pub created_by_agent_id : Option ℕ
  pub type : Option TransactionType
  pub mode : Option TransactionMode
  pub currency : Text
  pub amount : ℕ
  pub bvn : Option Text
  pub nin : Option Text
  pub admission_type : Option AdmissionType
  pub documents : List DocumentLink
  pub has_beneficiary : Bool
  pub pickup : Option PickupLocation

pub record File : Type 0 where
  pub name : String
  pub size : ℕ

-- The clock, the generators, the upload of a file to the image service, which gives its address or
-- fails, and the error of the database client on an amount that is not a number.
pub record World : Type 0 where
  pub now : ℕ
  pub fresh_id : ℕ
  pub reference_number : ℕ
  pub pickup_code : ℕ
  pub upload : File → Option String
  pub nan_error : Error
