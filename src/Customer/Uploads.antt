-- ===== src/Customer/Uploads.antt =====
-- uploadDocuments of src/modules/customer/services/customer-transaction.service.ts. A file is stored
-- with the image service and recorded before the next one is taken.
pub mod Stored
use sohcahtoa_api.Prelude.{
  ℕ, ◌==◌, String, Bool, true, false, not, ◌&&◌, Option, none, some, List, [], ◌∷◌, find,
  if◌then◌else◌,
}
use sohcahtoa_api.Errors.{invalid, not_found_error}
use sohcahtoa_api.Exec.{Exec, pure, gets, modify, raise_if, or_raise, ◌>>=◌, ◌>>◌}
use sohcahtoa_api.Table.{modify_unique}
use sohcahtoa_api.Store.Rows.{TransactionStep, StepStatus}
use sohcahtoa_api.Cbn.Rules.{TransactionType, AdmissionType}
use sohcahtoa_api.Cbn.Documents.{DocumentStatus, build_document_status, includes, is_school_fees}
use sohcahtoa_api.Customer.Rows.{Transaction, StepLog, TransactionDocument, CustomerDb, File, World}
use sohcahtoa_api.Customer.Creation.{valid_document_types, uploads_of, add_step, add_documents}

abbrev is_personal_info : TransactionStep → Bool
is_personal_info TransactionStep.personal_info = true
is_personal_info _ = false

-- findFirst({ where: { id: transactionId, userId } })
abbrev pub owned : ℕ → ℕ → CustomerDb → Option Transaction
owned id user db = find (λ t. t.id == id && t.user_id == user) db.transactions

-- steps: { where: { step: 'PERSONAL_INFO' }, take: 1 }
abbrev pub personal_step : ℕ → CustomerDb → Option StepLog
personal_step id db = find (λ s. s.transaction_id == id && is_personal_info s.step) db.steps

abbrev admission_in : Option StepLog → Option AdmissionType
admission_in none = none
admission_in (some s) = s.admission_type

-- transaction.type === 'SCHOOL_FEES' && transaction.steps?.[0]?.data ? ... : null
abbrev pub admission_of : TransactionType → Option StepLog → Option AdmissionType
admission_of type s = if is_school_fees type then admission_in s else none

abbrev pub stored : ℕ → ℕ → String → File → String → TransactionDocument
stored id user type file url = record {
  transaction_id = id;
  upload = record {
    document_type = type;
    file_url = url;
    verification_status = "PENDING";
    verification_notes = none;
  };
  file_name = file.name;
  file_size = file.size;
  uploaded_by = user;
}

unfoldable pub upload_file : World → ℕ → ℕ → String → File → Exec CustomerDb (Unit {0})
upload_file w id user type file = do
  url ← or_raise (w.upload file) (invalid "Failed to upload document")
  modify (add_documents (stored id user type file url ∷ []))

unfoldable pub upload_each : World → ℕ → ℕ → String → List File → Exec CustomerDb (Unit {0})
unfolding upload_file
upload_each w id user type [] = pure tt
upload_each w id user type (file ∷ files) = do
  upload_file w id user type file
  upload_each w id user type files

abbrev pub advanced : Transaction → Transaction
advanced t = record t { current_step = TransactionStep.document_upload }

abbrev upload_step : ℕ → StepLog
upload_step id = record {
  transaction_id = id;
  step = TransactionStep.document_upload;
  status = StepStatus.in_progress;
  admission_type = none;
}

-- if (transaction.currentStep === 'PERSONAL_INFO')
abbrev pub advance : TransactionStep → ℕ → CustomerDb → CustomerDb
advance TransactionStep.personal_info id db =
    add_step (upload_step id)
      (record db { transactions = modify_unique (λ t. t.id) id advanced db.transactions })
advance _ id db = db

unfoldable pub upload_documents :
    World → ℕ → ℕ → String → List File → Exec CustomerDb (List DocumentStatus)
unfolding upload_each
upload_documents w id user type files = do
  found ← gets (owned id user)
  t ← or_raise found (not_found_error "Transaction not found or does not belong to you")
  step ← gets (personal_step id)
  raise_if (not (includes valid_document_types type)) (invalid "Invalid document type")
  upload_each w id user type files
  modify (advance t.current_step id)
  uploads ← gets (uploads_of id)
  pure (build_document_status t.type uploads (admission_of t.type step) t.mode t.foreign_amount)
