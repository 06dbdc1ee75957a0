-- ===== src/Cbn/Documents.antt =====
-- The documents that a transaction needs: checkSupportingDocuments of
-- src/shared/middleware/cbn-compliance.ts, and getRequiredDocuments and buildDocumentStatus of
-- src/modules/customer/services/customer-transaction.service.ts.
pub mod Required
use text.Mathlib.Text.{◌==◌ as str_eq}
use sohcahtoa_api.Prelude.{
  ℕ, ◌*◌, String, Bool, true, false, not, ◌&&◌, ◌||◌, Option, none, some, List, [], ◌∷◌, ◌++◌, map,
  filter, find, any, leb, if◌then◌else◌,
}
use sohcahtoa_api.Errors.{Error, Result, ok, err, invalid}
use sohcahtoa_api.Cbn.Rules.{TransactionType, AdmissionType, TransactionMode, Body}

-- 10000 USD
abbrev pub declaration_threshold : ℕ
declaration_threshold = 10000 * 100

abbrev pub is_school_fees : TransactionType → Bool
is_school_fees TransactionType.school_fees = true
is_school_fees _ = false

abbrev pub is_tourist : TransactionType → Bool
is_tourist TransactionType.tourist_fx = true
is_tourist _ = false

-- ['RESIDENT_FX', 'EXPATRIATE_FX'].includes(type)
abbrev pub always_sells : TransactionType → Bool
always_sells TransactionType.resident_fx = true
always_sells TransactionType.expatriate_fx = true
always_sells _ = false

abbrev pub is_postgraduate : Option AdmissionType → Bool
is_postgraduate (some AdmissionType.postgraduate) = true
is_postgraduate _ = false

abbrev pub is_sell : Option TransactionMode → Bool
is_sell (some TransactionMode.sell) = true
is_sell _ = false

abbrev pub is_large : Option ℕ → Bool
is_large none = false
is_large (some amount) = leb declaration_threshold amount

abbrev pub postgraduate_documents : List String
postgraduate_documents = "STATEMENT_OF_RESULT" ∷ "DEGREE" ∷ []

abbrev pub declarations : List String
declarations = "PROOF_OF_FUNDS" ∷ "SOURCE_OF_FUNDS_DECLARATION" ∷ "DIGITAL_SIGNATURE" ∷ []

-- the table of the middleware
abbrev pub middleware_table : TransactionType → List String
middleware_table TransactionType.pta = "VISA" ∷ "RETURN_TICKET" ∷ []
middleware_table TransactionType.bta =
    "TIN" ∷ "TCC" ∷ "PASSPORT" ∷ "VISA" ∷ "RETURN_TICKET" ∷ "CORPORATE_BODY_LETTER"
    ∷ "PARTNER_INVITATION_LETTER" ∷ []
middleware_table TransactionType.school_fees = "PASSPORT" ∷ "SCHOOL_ADMISSION" ∷ "INVOICE" ∷ []
middleware_table TransactionType.medical =
    "PASSPORT" ∷ "VISA" ∷ "RETURN_TICKET" ∷ "FORM_A_DOCUMENT" ∷ "MEDICAL_LETTER"
    ∷ "OVERSEAS_MEDICAL_LETTER" ∷ []
middleware_table TransactionType.professional_body = "MEMBERSHIP_CARD" ∷ "INVOICE" ∷ []
middleware_table TransactionType.tourist_fx = "VISA" ∷ "PASSPORT" ∷ "RETURN_TICKET" ∷ "RECEIPT" ∷ []
middleware_table TransactionType.resident_fx = "PASSPORT" ∷ "UTILITY_BILL" ∷ []
middleware_table TransactionType.expatriate_fx = "PASSPORT" ∷ "WORK_PERMIT" ∷ "UTILITY_BILL" ∷ []
middleware_table TransactionType.imto_remittance = []
middleware_table TransactionType.cash_remittance = []

-- the `required` of checkSupportingDocuments
unfoldable pub middleware_documents :
    TransactionType → Option AdmissionType → Option TransactionMode → Option ℕ → List String
middleware_documents type admission mode amount =
    let base = middleware_table type in
    let graduate =
      if is_school_fees type && is_postgraduate admission
      then base ++ postgraduate_documents
      else base in
    if (always_sells type || (is_tourist type && is_sell mode)) && is_large amount
    then graduate ++ declarations
    else graduate

-- the table of the service
abbrev pub service_table : TransactionType → List String
service_table TransactionType.pta = "VISA" ∷ "RETURN_TICKET" ∷ []
service_table TransactionType.bta =
    "TIN" ∷ "TCC" ∷ "PASSPORT" ∷ "VISA" ∷ "RETURN_TICKET" ∷ "CORPORATE_BODY_LETTER"
    ∷ "PARTNER_INVITATION_LETTER" ∷ []
service_table TransactionType.school_fees = "PASSPORT" ∷ "SCHOOL_ADMISSION" ∷ "INVOICE" ∷ []
service_table TransactionType.medical =
    "PASSPORT" ∷ "VISA" ∷ "RETURN_TICKET" ∷ "FORM_A_DOCUMENT" ∷ "MEDICAL_LETTER"
    ∷ "OVERSEAS_MEDICAL_LETTER" ∷ []
service_table TransactionType.professional_body = "MEMBERSHIP_CARD" ∷ "INVOICE" ∷ []
service_table TransactionType.tourist_fx = "VISA" ∷ "PASSPORT" ∷ "RETURN_TICKET" ∷ "RECEIPT" ∷ []
service_table TransactionType.resident_fx = "PASSPORT" ∷ "UTILITY_BILL" ∷ []
service_table TransactionType.expatriate_fx = "PASSPORT" ∷ "WORK_PERMIT" ∷ "UTILITY_BILL" ∷ []
service_table TransactionType.imto_remittance = []
service_table TransactionType.cash_remittance = []

-- the clause on the mode of TOURIST_FX
abbrev pub by_mode : TransactionType → Option TransactionMode → List String → List String
by_mode TransactionType.tourist_fx (some TransactionMode.buy) required =
    "VISA" ∷ "PASSPORT" ∷ "RETURN_TICKET" ∷ "RECEIPT" ∷ []
by_mode TransactionType.tourist_fx (some TransactionMode.sell) required =
    "VISA" ∷ "PASSPORT" ∷ "RETURN_TICKET" ∷ "RECEIPT" ∷ []
by_mode _ _ required = required

unfoldable pub get_required_documents :
    TransactionType → Option AdmissionType → Option TransactionMode → Option ℕ → List String
get_required_documents type admission mode amount =
    let base = by_mode type mode (service_table type) in
    let graduate =
      if is_school_fees type && is_postgraduate admission
      then base ++ postgraduate_documents
      else base in
    if (always_sells type || (is_tourist type && is_sell mode)) && is_large amount
    then graduate ++ declarations
    else graduate

abbrev pub includes : List String → String → Bool
includes xs x = any (λ y. str_eq y x) xs

-- required.filter((reqType) => !providedTypes.includes(reqType))
abbrev pub missing_of : List String → List String → List String
missing_of required provided = filter (λ r. not (includes provided r)) required

-- the checks on a list that is not empty
unfoldable pub check_provided : List String → Option (List String) → Result (Unit {0})
check_provided [] documents = ok tt
check_provided (r ∷ rs) none = err (invalid "Supporting documents required")
check_provided (r ∷ rs) (some provided) = elim (missing_of (r ∷ rs) provided) [
  | [] ↦ ok tt
  | _ ∷ _ ↦ err (invalid "Missing required documents")
]

unfoldable pub check_supporting_documents : Body → Result (Unit {0})
check_supporting_documents b = elim b.type [
  | none ↦ ok tt
  | some type ↦
      check_provided (middleware_documents type b.admission_type b.mode b.amount) b.documents
]

-- an uploaded document, as buildDocumentStatus reads it
pub record Uploaded : Type 0 where
  pub document_type : String
  pub file_url : String
  pub verification_status : String
  pub verification_notes : Option String

pub record DocumentStatus : Type 0 where
  pub type : String
  pub uploaded : Option Uploaded
  pub rejection_notes : Option String

abbrev pub rejection_of : Uploaded → Option String
rejection_of u = if str_eq u.verification_status "FAILED" then u.verification_notes else none

unfoldable pub status_of : List Uploaded → String → DocumentStatus
status_of uploads type =
    let uploaded = find (λ d. str_eq d.document_type type) uploads in
    record {
      type = type;
      uploaded = uploaded;
      rejection_notes = elim uploaded [ none ↦ none | some u ↦ rejection_of u ];
    }

unfoldable pub build_document_status :
    TransactionType
    → List Uploaded
    → Option AdmissionType
    → Option TransactionMode
    → Option ℕ
    → List DocumentStatus
build_document_status type uploads admission mode amount =
    map (status_of uploads) (get_required_documents type admission mode amount)
