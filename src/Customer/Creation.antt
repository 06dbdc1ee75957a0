-- ===== src/Customer/Creation.antt =====
-- createTransaction of src/modules/customer/services/customer-transaction.service.ts. Log lines, the
-- audit trail and the other texts of a step's data are left out.
use sohcahtoa_api.Prelude.{
  ℕ, ◌+◌, ◌*◌, ◌==◌, String, Bool, true, false, not, ◌&&◌, ◌||◌, Option, none, some, is_some, List,
  [], ◌∷◌, ◌++◌, map, filter, any, Text, text_eq, if◌then◌else◌,
}
use sohcahtoa_api.Errors.{Error, ok, err, invalid, not_found_error, prisma, unique_violation}
use sohcahtoa_api.Exec.{raise_if, Exec, pure, raise, gets, modify, or_raise, try_catch, ◌>>=◌, ◌>>◌}
use sohcahtoa_api.Table.{find_unique}
use sohcahtoa_api.Store.Rows.{TransactionStatus, TransactionStep, StepStatus}
use sohcahtoa_api.Cbn.Rules.{TransactionType, DisbursementMethod}
use sohcahtoa_api.Cbn.Documents.{
  Uploaded, DocumentStatus, build_document_status, includes, is_school_fees,
}
use sohcahtoa_api.Customer.Quotes.{Quote, quote_for, rate_in, naira_in, is_nan}
use sohcahtoa_api.Customer.Rows.{
  Kyc, Transaction, StepLog, TransactionDocument, PickupStatus, CashPickup, CustomerDb,
  DocumentLink, PickupLocation, TransactionRequest, World,
}

abbrev pub valid_document_types : List String
valid_document_types =
    "PASSPORT" ∷ "VISA" ∷ "TICKET" ∷ "RETURN_TICKET" ∷ "BVN" ∷ "NIN" ∷ "TIN" ∷ "TCC"
    ∷ "FORM_A_DOCUMENT" ∷ "CORPORATE_BODY_LETTER" ∷ "PARTNER_INVITATION_LETTER" ∷ "RECEIPT"
    ∷ "INVOICE" ∷ "MEDICAL_LETTER" ∷ "OVERSEAS_MEDICAL_LETTER" ∷ "PROFESSIONAL_BODY_LETTER"
    ∷ "MEMBERSHIP_CARD" ∷ "SCHOOL_ADMISSION" ∷ "STATEMENT_OF_RESULT" ∷ "DEGREE" ∷ "UTILITY_BILL"
    ∷ "WORK_PERMIT" ∷ "PROOF_OF_FUNDS" ∷ "SOURCE_OF_FUNDS_DECLARATION" ∷ "DIGITAL_SIGNATURE" ∷ []

-- kycs have the unique columns userId, bvn and nin
abbrev same_text : Option Text → Option Text → Bool
same_text (some a) (some b) = text_eq a b
same_text _ _ = false

abbrev kyc_clash : Kyc → Kyc → Bool
kyc_clash row k = row.user_id == k.user_id || (same_text row.bvn k.bvn || same_text row.nin k.nin)

-- `create` with the rows that break a unique column, and the write
abbrev pub create : {A : Type 0} → Bool → A → (CustomerDb → CustomerDb) → Exec CustomerDb A
create true row write db = (err (prisma unique_violation), db)
create false row write db = (ok row, write db)

unfoldable pub create_kyc : Kyc → Exec CustomerDb Kyc
create_kyc row = do
  clash ← gets (λ db. any (kyc_clash row) db.kycs)
  create clash row (λ db. record db { kycs = db.kycs ++ row ∷ [] })

abbrev refuse_kyc : Error → Exec CustomerDb Kyc
refuse_kyc e = raise (
    invalid
      "Failed to create KYC information. The BVN or NIN may already be registered to another account.")

abbrev pub kyc_if : Bool → TransactionRequest → Exec CustomerDb (Unit {0})
kyc_if false r = pure tt
kyc_if true r = do
  try_catch (create_kyc (record { user_id = r.user_id; bvn = r.bvn; nin = r.nin })) refuse_kyc
  pure tt

unfoldable pub update_kyc : TransactionRequest → Option Kyc → Exec CustomerDb (Unit {0})
unfolding create_kyc
update_kyc r kyc = kyc_if ((is_some r.bvn || is_some r.nin) && not (is_some kyc)) r

abbrev pub has_documents : List DocumentLink → Bool
has_documents [] = false
has_documents (d ∷ ds) = true

abbrev pub initial_status : TransactionRequest → TransactionStatus
initial_status r =
    if has_documents r.documents
    then TransactionStatus.awaiting_verification
    else TransactionStatus.draft

abbrev pub initial_step : TransactionRequest → TransactionStep
initial_step r =
    if has_documents r.documents
    then TransactionStep.document_upload
    else TransactionStep.personal_info

abbrev pub disbursement_of : TransactionRequest → Option DisbursementMethod
disbursement_of r =
    if is_some r.pickup
    then some DisbursementMethod.cash_pickup
    else (if r.has_beneficiary then some DisbursementMethod.bank_transfer else none)

abbrev pub new_transaction : World → TransactionRequest → TransactionType → Quote → Transaction
new_transaction w r type quote = record {
  id = w.fresh_id;
  user_id = r.user_id;
  created_by_agent_id = r.created_by_agent_id;
  reference_number = w.reference_number;
  type = type;
  mode = r.mode;
  status = initial_status r;
  current_step = initial_step r;
  currency = r.currency;
  foreign_amount = some r.amount;
  naira_equivalent = naira_in quote;
  exchange_rate = rate_in quote;
  disbursement_method = disbursement_of r;
}

unfoldable pub create_transaction_row : World → Transaction → Quote → Exec CustomerDb Transaction
create_transaction_row w row quote = do
  raise_if (is_nan quote) w.nan_error
  clash ← gets (λ db.
      any (λ t. t.id == row.id || t.reference_number == row.reference_number) db.transactions)
  create clash row (λ db. record db { transactions = db.transactions ++ row ∷ [] })

abbrev pub first_step : World → TransactionRequest → TransactionType → StepLog
first_step w r type = record {
  transaction_id = w.fresh_id;
  step = initial_step r;
  status = StepStatus.completed;
  admission_type = if is_school_fees type then r.admission_type else none;
}

abbrev size_or_zero : Option ℕ → ℕ
size_or_zero none = 0
size_or_zero (some n) = n

abbrev pub document_of : ℕ → ℕ → DocumentLink → TransactionDocument
document_of transaction user d = record {
  transaction_id = transaction;
  upload = record {
    document_type = d.document_type;
    file_url = d.file_url;
    verification_status = "PENDING";
    verification_notes = none;
  };
  file_name = d.file_name;
  file_size = size_or_zero d.file_size;
  uploaded_by = user;
}

-- documents.filter((doc) => validDocumentTypes.includes(doc.documentType))
abbrev pub valid_docs : List DocumentLink → List DocumentLink
valid_docs = filter (λ d. includes valid_document_types d.document_type)

abbrev pub new_pickup : World → TransactionRequest → PickupLocation → CashPickup
new_pickup w r p = record {
  transaction_id = w.fresh_id;
  pickup_location = p.name;
  pickup_location_id = p.id;
  pickup_code = w.pickup_code;
  recipient_name = p.recipient_name;
  amount = r.amount;
  currency = r.currency;
  scheduled_date = p.scheduled_date;
  scheduled_time = p.scheduled_time;
  expiry_date = w.now + 30 * 24 * 60 * 60 * 1000;
  status = PickupStatus.pending;
}

-- pickups have the unique columns transactionId and pickupCode
unfoldable pub create_pickup : CashPickup → Exec CustomerDb CashPickup
create_pickup row = do
  clash ← gets (λ db.
      any (λ p. p.transaction_id == row.transaction_id || p.pickup_code == row.pickup_code)
        db.pickups)
  create clash row (λ db. record db { pickups = db.pickups ++ row ∷ [] })

abbrev pub schedule :
    World → TransactionRequest → Option PickupLocation → Exec CustomerDb (Unit {0})
schedule w r none = pure tt
schedule w r (some p) = do create_pickup (new_pickup w r p); pure tt

-- the columns that the query selects: the notes are not among them
abbrev without_notes : Uploaded → Uploaded
without_notes u = record u { verification_notes = none }

abbrev pub uploads_of : ℕ → CustomerDb → List Uploaded
uploads_of transaction db =
    map (λ d. without_notes d.upload) (filter (λ d. d.transaction_id == transaction) db.documents)

pub record CreatedTransaction : Type 0 where
  pub transaction_id : ℕ
  pub reference_number : ℕ
  pub status : TransactionStatus
  pub current_step : TransactionStep
  pub required_documents : List DocumentStatus

abbrev pub respond :
    World → TransactionRequest → TransactionType → List Uploaded → CreatedTransaction
respond w r type uploads = record {
  transaction_id = w.fresh_id;
  reference_number = w.reference_number;
  status = initial_status r;
  current_step = initial_step r;
  required_documents = build_document_status type uploads r.admission_type r.mode (some r.amount);
}

abbrev pub add_step : StepLog → CustomerDb → CustomerDb
add_step s db = record db { steps = db.steps ++ s ∷ [] }

abbrev pub add_documents : List TransactionDocument → CustomerDb → CustomerDb
add_documents ds db = record db { documents = db.documents ++ ds }

-- what follows the creation of the transaction's row
unfoldable pub complete_creation :
    World → TransactionRequest → TransactionType → Exec CustomerDb CreatedTransaction
complete_creation w r type = do
  modify (add_step (first_step w r type))
  modify (add_documents (map (document_of w.fresh_id r.user_id) (valid_docs r.documents)))
  schedule w r r.pickup
  uploads ← gets (uploads_of w.fresh_id)
  pure (respond w r type uploads)

unfoldable pub create_transaction : World → TransactionRequest → Exec CustomerDb CreatedTransaction
create_transaction w r = do
  found ← gets (λ db. find_unique (λ u. u.id) r.user_id db.users)
  user ← or_raise found (not_found_error "User not found")
  type ← or_raise r.type (invalid "Invalid transaction type")
  kyc ← gets (λ db. find_unique (λ k. k.user_id) user.id db.kycs)
  update_kyc r kyc
  quote ← gets (quote_for w r.currency r.amount)
  create_transaction_row w (new_transaction w r type quote) quote
  complete_creation w r type
