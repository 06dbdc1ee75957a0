-- ===== src/Cbn/Rules.antt =====
-- The transaction types of prisma/schema.prisma, their limits (CBN_TRANSACTION_LIMITS) and the fields
-- of a request's body that the middleware reads. A field that is absent, empty or 0 is none.
use sohcahtoa_api.Prelude.{ℕ, ◌*◌, String, Option, none, some, List}

pub data TransactionType : Type 0 where
  pta bta school_fees medical professional_body tourist_fx : TransactionType
  resident_fx expatriate_fx imto_remittance cash_remittance : TransactionType

abbrev pub type_code : TransactionType → ℕ
type_code TransactionType.pta = 0
type_code TransactionType.bta = 1
type_code TransactionType.school_fees = 2
type_code TransactionType.medical = 3
type_code TransactionType.professional_body = 4
type_code TransactionType.tourist_fx = 5
type_code TransactionType.resident_fx = 6
type_code TransactionType.expatriate_fx = 7
type_code TransactionType.imto_remittance = 8
type_code TransactionType.cash_remittance = 9

abbrev pub type_name : TransactionType → String
type_name TransactionType.pta = "PTA"
type_name TransactionType.bta = "BTA"
type_name TransactionType.school_fees = "SCHOOL_FEES"
type_name TransactionType.medical = "MEDICAL"
type_name TransactionType.professional_body = "PROFESSIONAL_BODY"
type_name TransactionType.tourist_fx = "TOURIST_FX"
type_name TransactionType.resident_fx = "RESIDENT_FX"
type_name TransactionType.expatriate_fx = "EXPATRIATE_FX"
type_name TransactionType.imto_remittance = "IMTO_REMITTANCE"
type_name TransactionType.cash_remittance = "CASH_REMITTANCE"

pub record TypeLimits : Type 0 where
  pub quarterly_limit : ℕ
  pub yearly_limit : ℕ

abbrev usd : ℕ → ℕ → Option TypeLimits
usd q y = some (record { quarterly_limit = q * 100; yearly_limit = y * 100 })

abbrev pub limits_of : TransactionType → Option TypeLimits
limits_of TransactionType.pta = usd 4000 16000
limits_of TransactionType.bta = usd 5000 20000
limits_of TransactionType.school_fees = usd 10000 10000
limits_of TransactionType.medical = usd 5000 20000
limits_of TransactionType.professional_body = usd 2000 2000
limits_of TransactionType.tourist_fx = usd 5000 20000
limits_of TransactionType.resident_fx = usd 10000 40000
limits_of TransactionType.expatriate_fx = usd 100000 400000
limits_of TransactionType.imto_remittance = none
limits_of TransactionType.cash_remittance = none

pub data AdmissionType : Type 0 where
  undergraduate postgraduate other : AdmissionType

pub data TransactionMode : Type 0 where
  buy sell : TransactionMode

pub data DisbursementMethod : Type 0 where
  bank_transfer cash_pickup prepaid_card imto : DisbursementMethod

pub record Body : Type 0 where
  pub user_id : Option ℕ
  pub type : Option TransactionType
  pub foreign_amount : Option ℕ
  pub disbursement_method : Option DisbursementMethod
  pub cash_amount : Option ℕ
  pub card_amount : Option ℕ
  pub documents : Option (List String)  -- the documentType of each
  pub admission_type : Option AdmissionType
  pub amount : Option ℕ
  pub mode : Option TransactionMode
