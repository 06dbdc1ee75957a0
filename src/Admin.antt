-- ===== src/Admin.antt =====
-- src/modules/admin/services/admin-transactions.service.ts: what administrators decide about
-- transactions and their documents. Updated columns that are timestamps kept by the database, JSON
-- data and the notification of the next reviewers are left out; the events are kept.
pub mod Rows
pub mod Approval
pub mod Decisions
pub mod History
use sohcahtoa_api.Prelude.{
  ℕ, String, Bool, true, false, ◌&&◌, Option, none, some, List, [], ◌∷◌, ◌++◌, ◌==◌, find,
  if◌then◌else◌,
}
use sohcahtoa_api.Errors.{Error, other, prisma, record_not_found, ok, err}
use sohcahtoa_api.Exec.{Exec, pure, gets, modify, ◌>>=◌, ◌>>◌, or_raise}
use sohcahtoa_api.Table.{find_unique, modify_unique, modify_where}
use sohcahtoa_api.Store.Rows.{TransactionStatus, TransactionStep, StepStatus}
pub use Rows.*

abbrev pub transaction_by : ℕ → AdminDb → Option Transaction
transaction_by id db = find_unique (λ t. t.id) id db.transactions

abbrev pub document_by : ℕ → AdminDb → Option Document
document_by id db = find_unique (λ d. d.id) id db.documents

unfoldable pub update_transaction : ℕ → (Transaction → Transaction) → Exec AdminDb Transaction
update_transaction id f db = elim (transaction_by id db) [
  | none ↦ (err (prisma record_not_found), db)
  | some t ↦ (ok (f t), record db { transactions = modify_unique (λ x. x.id) id f db.transactions })
]

unfoldable pub update_document : ℕ → (Document → Document) → Exec AdminDb Document
update_document id f db = elim (document_by id db) [
  | none ↦ (err (prisma record_not_found), db)
  | some d ↦ (ok (f d), record db { documents = modify_unique (λ x. x.id) id f db.documents })
]

abbrev pub log_step : StepEntry → AdminDb → AdminDb
log_step s db = record db { steps = db.steps ++ s ∷ [] }

abbrev pub add_history : HistoryEntry → AdminDb → AdminDb
add_history h db = record db { history = db.history ++ h ∷ [] }

abbrev pub publish : Event → AdminDb → AdminDb
publish e db = record db { events = db.events ++ e ∷ [] }

abbrev pub completed_step : ℕ → ℕ → TransactionStep → StepEntry
completed_step now id step = record {
  transaction_id = id;
  step = step;
  status = StepStatus.completed;
  completed_at = some now;
}

abbrev pub entry : ℕ → String → ℕ → Option String → HistoryEntry
entry id action by notes = record {
  transaction_id = id;
  action = action;
  performed_by = by;
  notes = notes;
}

-- `now` is the clock; the methods answer with a message.
unfoldable pub request_information : ℕ → Exec AdminDb String
request_information id = do
  update_transaction id (λ t. record t { status = TransactionStatus.compliance_review })
  modify (λ db. record db {
    documents =
        modify_where (λ d. d.transaction_id == id)
          (λ d. record d { verification_status = VerificationStatus.requires_manual_review })
          db.documents;
  })
  pure "Request for information recorded"

unfoldable pub review_transaction : ℕ → ℕ → ℕ → Option String → Exec AdminDb String
review_transaction now id admin notes = do
  update_transaction id (λ t. record t {
    current_step = TransactionStep.admin_review;
    status = TransactionStatus.admin_approval_pending;
  })
  modify (log_step (completed_step now id TransactionStep.admin_review))
  modify (add_history (entry id "ADMIN_REVIEW_COMPLETED" admin notes))
  pure "Transaction reviewed successfully"

abbrev pub awaits_verification : VerificationStatus → Bool
awaits_verification VerificationStatus.pending = true
awaits_verification _ = false

-- where: { transactionId, verificationStatus: PENDING }
abbrev pub pending_in : ℕ → Document → Bool
pending_in id d = d.transaction_id == id && awaits_verification d.verification_status

abbrev pub as_verified : ℕ → ℕ → Document → Document
as_verified now admin d = record d {
  verification_status = VerificationStatus.verified;
  verified_at = some now;
  verified_by = some admin;
}

abbrev pub as_approved : Transaction → Transaction
as_approved t = record t {
  status = TransactionStatus.approved;
  current_step = TransactionStep.admin_review;
}

unfoldable pub approve_transaction : ℕ → ℕ → ℕ → Option String → Exec AdminDb String
approve_transaction now id admin reason = do
  t ← update_transaction id as_approved
  modify (λ db. record db {
    documents = modify_where (pending_in id) (as_verified now admin) db.documents;
  })
  modify (add_history (entry id "TRANSACTION_APPROVED" admin reason))
  modify (publish (transaction_approved t.user_id t.id))
  pure "Transaction approved successfully"

abbrev pub as_rejected : ℕ → String → Transaction → Transaction
as_rejected now reason t = record t {
  status = TransactionStatus.rejected;
  current_step = TransactionStep.admin_review;
  rejection_reason = some reason;
  rejected_at = some now;
}

unfoldable pub reject_transaction : ℕ → ℕ → ℕ → String → Exec AdminDb String
reject_transaction now id admin reason = do
  t ← update_transaction id (as_rejected now reason)
  modify (add_history (entry id "TRANSACTION_REJECTED" admin (some reason)))
  modify (publish (transaction_rejected t.user_id t.id))
  pure "Transaction rejected successfully"

abbrev pub document_not_found : Error
document_not_found = other "Document not found"

-- findFirst({ where: { id: documentId, transactionId } })
abbrev pub document_in : ℕ → ℕ → AdminDb → Option Document
document_in id document db = find (λ d. d.id == document && d.transaction_id == id) db.documents

-- if (tx) eventBus.publish(...)
abbrev pub publish_for : ℕ → (Transaction → Event) → AdminDb → AdminDb
publish_for id event db = elim (transaction_by id db) [ none ↦ db | some t ↦ publish (event t) db ]

abbrev pub decide : ℕ → VerificationStatus → Option String → ℕ → Document → Document
decide now status notes admin d = record d {
  verification_status = status;
  verification_notes = notes;
  verified_at = some now;
  verified_by = some admin;
}

unfoldable pub approve_document : ℕ → ℕ → ℕ → ℕ → Option String → Exec AdminDb Document
approve_document now id document admin notes = do
  found ← gets (document_in id document)
  or_raise found document_not_found
  updated ← update_document document (decide now VerificationStatus.verified notes admin)
  modify (publish_for id (λ t. document_verified t.user_id updated.id admin))
  pure updated

unfoldable pub reject_document : ℕ → ℕ → ℕ → ℕ → Option String → Exec AdminDb Document
reject_document now id document admin reason = do
  found ← gets (document_in id document)
  or_raise found document_not_found
  updated ← update_document document (decide now VerificationStatus.failed reason admin)
  modify (add_history (entry id "DOCUMENT_REJECTED" admin reason))
  modify (publish_for id (λ t. document_rejected t.user_id updated.id admin))
  pure updated

abbrev pub reopen : String → Document → Document
reopen comment d = record d {
  verification_status = VerificationStatus.requires_manual_review;
  verification_notes = some comment;
  verified_at = none;
  verified_by = none;
}

unfoldable pub request_more_info : ℕ → ℕ → ℕ → String → Exec AdminDb Document
request_more_info id document admin comment = do
  found ← gets (document_in id document)
  or_raise found document_not_found
  updated ← update_document document (reopen comment)
  modify (add_history (entry id "DOCUMENT_MORE_INFO_REQUESTED" admin (some comment)))
  pure updated

unfoldable pub settle_transaction : ℕ → ℕ → ℕ → String → String → Exec AdminDb String
settle_transaction now id admin reference method = do
  update_transaction id (λ t. record t {
    current_step = TransactionStep.disbursement;
    status = TransactionStatus.disbursement_in_progress;
    disbursement_method = some method;
  })
  modify (log_step (completed_step now id TransactionStep.disbursement))
  modify (add_history (entry id "TRANSACTION_SETTLED" admin (some reference)))
  pure "Transaction settled successfully"
