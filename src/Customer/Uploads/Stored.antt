-- ===== src/Customer/Uploads/Stored.antt =====
-- What uploadDocuments leaves, whether or not one of the files fails.
use mathlib.Core.List.{append-nil, append_assoc}
use sohcahtoa_api.Prelude.{
  ℕ, String, Bool, true, false, Option, none, some, is_some, all, List, [], ◌∷◌, ◌++◌, sym, arith,
  ◌≡◌, if◌then◌else◌, Option-cases, Bool-cases, inl, inr, ap, ◌∙◌,
}
use sohcahtoa_api.Table.{modify_unique}
use sohcahtoa_api.Store.Rows.{TransactionStep, StepStatus}
use sohcahtoa_api.Errors.{Error, Result, ok, err, invalid}
use sohcahtoa_api.Cbn.Documents.{includes, build_document_status}
use sohcahtoa_api.Customer.Rows.{Transaction, TransactionDocument, CustomerDb, File, World}
use sohcahtoa_api.Customer.Creation.{valid_document_types, uploads_of, add_documents}
use sohcahtoa_api.Customer.Uploads.{
  owned, personal_step, admission_of, stored, upload_file, upload_each, advance, upload_documents,
}

abbrev pub failed_upload : Error
failed_upload = invalid "Failed to upload document"

abbrev stored_then :
    Option String
    → (String → TransactionDocument)
    → List TransactionDocument
    → List TransactionDocument
stored_then none row rest = []
stored_then (some url) row rest = row url ∷ rest

-- the files before the first one that fails, as rows
unfoldable pub stored_rows : World → ℕ → ℕ → String → List File → List TransactionDocument
stored_rows w id user type [] = []
stored_rows w id user type (f ∷ fs) =
    let rest = stored_rows w id user type fs in
    stored_then (w.upload f)
      (λ url. record {
        transaction_id = id;
        upload = record {
          document_type = type;
          file_url = url;
          verification_status = "PENDING";
          verification_notes = none;
        };
        file_name = f.name;
        file_size = f.size;
        uploaded_by = user;
      })
      rest

abbrev pub all_uploaded : World → List File → Bool
all_uploaded w = all (λ f. is_some (w.upload f))

abbrev outcome : Bool → Result (Unit {0})
outcome true = ok tt
outcome false = err failed_upload

add_nothing : (db : CustomerDb) → db ≡ add_documents [] db
add_nothing db = rw (append-nil db.documents)

add_twice :
    (d : TransactionDocument) (ds : List TransactionDocument) (db : CustomerDb)
    → add_documents ds (add_documents (d ∷ []) db) ≡ add_documents (d ∷ ds) db
add_twice d ds db = rw (append_assoc db.documents (d ∷ []) ds)

-- how the loop ends and what it leaves
upload_each_lem :
    (w : World) (id user : ℕ) (type : String) (files : List File) (db : CustomerDb)
    → upload_each w id user type files db
      ≡ (outcome (all_uploaded w files), add_documents (stored_rows w id user type files) db)
unfolding upload_each upload_file stored_rows
upload_each_lem w id user type [] db = ap (λ d. (ok tt, d)) (add_nothing db)
upload_each_lem w id user type (f ∷ fs) db = elim (Option-cases (w.upload f)) [
  | inl fails ↦ rw fails (ap (λ d. (err failed_upload, d)) (add_nothing db))
  | inr (url, there) ↦
      let row = stored id user type f url in
      let rest = stored_rows w id user type fs in
      rw there (
        upload_each_lem w id user type fs (add_documents (row ∷ []) db)
        ∙ ap (λ d. (outcome (all_uploaded w fs), d)) (add_twice row rest db))
]

abbrev pub at_start : TransactionStep → Bool
at_start TransactionStep.personal_info = true
at_start _ = false

advance_lem :
    (s : TransactionStep) (id : ℕ) (db : CustomerDb)
    → advance s id db ≡ (
        if at_start s
        then record db {
          transactions =
              modify_unique
                (λ x. x.id)
                id
                (λ x. record x { current_step = TransactionStep.document_upload })
                db.transactions;
          steps =
              db.steps
              ++ record {
                transaction_id = id;
                step = TransactionStep.document_upload;
                status = StepStatus.in_progress;
                admission_type = none;
              }
                ∷ [];
        }
        else db)
advance_lem s id db = ground arith

-- For a transaction of the user and a valid type, uploadDocuments records exactly the files before
-- the first one whose upload fails, PENDING and uploaded by the user. It fails if there is such a file, and then changes nothing
-- else: those rows stay. If there is none, it moves the transaction on to DOCUMENT_UPLOAD, with
-- a step, if it was at PERSONAL_INFO, and answers with the documents that are required and there.
pub upload_documents_lem :
    (w : World) (id user : ℕ) (type : String) (files : List File) (t : Transaction)
    (db : CustomerDb)
    → owned id user db ≡ some t
    → includes valid_document_types type ≡ true
    → let left = add_documents (stored_rows w id user type files) db in
      let moved : CustomerDb =
        if at_start t.current_step
        then record left {
          transactions =
              modify_unique
                (λ x. x.id)
                id
                (λ x. record x { current_step = TransactionStep.document_upload })
                left.transactions;
          steps =
              left.steps
              ++ record {
                transaction_id = id;
                step = TransactionStep.document_upload;
                status = StepStatus.in_progress;
                admission_type = none;
              }
                ∷ [];
        }
        else left in
      upload_documents w id user type files db ≡ (
        if all_uploaded w files
        then (
          ok (
              build_document_status t.type
                (uploads_of id moved)
                (admission_of t.type (personal_step id db))
                t.mode
                t.foreign_amount),
          moved,
        )
        else (err failed_upload, left))
unfolding upload_documents
upload_documents_lem w id user type files t db there valid =
    rw
      (
        there,
        valid,
        upload_each_lem w id user type files db,
        sym (advance_lem t.current_step id (add_documents (stored_rows w id user type files) db)),
      )
      (elim (Bool-cases (all_uploaded w files)) [ inl stay ↦ rw stay | inr fail ↦ rw fail ])
