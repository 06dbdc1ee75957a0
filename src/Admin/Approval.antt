-- ===== src/Admin/Approval.antt =====
-- What the approval of a transaction does to it and to its documents.
use sohcahtoa_api.Prelude.{
  arith, Bool, true, false, ◌&&◌, none, ℕ, ◌≡◌, refl, ap, ◌∙◌, Option, some, String, ◌==◌,
  if◌then◌else◌,
}
use sohcahtoa_api.Errors.{ok}
use sohcahtoa_api.Table.{find_unique, modify_unique, modify_where}
use sohcahtoa_api.Table.Laws.{
  map_if, map_found, find_unique-modify_unique, find_unique-modify_where_found,
}
use sohcahtoa_api.Store.Rows.{TransactionStatus, TransactionStep}
use sohcahtoa_api.Admin.{
  AdminDb, Transaction, transaction_by, document_by, update_transaction, approve_transaction,
  as_approved, as_verified, pending_in, awaits_verification, Document, VerificationStatus,
}

-- the status in which an approval takes a document along
abbrev pub is_untouched : VerificationStatus → Bool
is_untouched VerificationStatus.pending = true
is_untouched VerificationStatus.in_progress = false
is_untouched VerificationStatus.verified = false
is_untouched VerificationStatus.failed = false
is_untouched VerificationStatus.requires_manual_review = false

awaits_pending : (s : VerificationStatus) → awaits_verification s ≡ is_untouched s
awaits_pending s = ground arith

map_found-ext :
    {A : Type 0} (f g : A → A)
    → ((a : A) → f a ≡ g a)
    → (o : Option A) → map_found f o ≡ map_found g o
map_found-ext f g same none = refl
map_found-ext f g same (some a) = ap some (same a)

written :
    (now id admin : ℕ) (d : Document)
    → (if pending_in id d then as_verified now admin d else d) ≡ (
        if d.transaction_id == id && is_untouched d.verification_status
        then record d {
          verification_status = VerificationStatus.verified;
          verified_at = some now;
          verified_by = some admin;
        }
        else d)
written now id admin d = rw (awaits_pending d.verification_status)

module _ (now id admin : ℕ) (reason : Option String) (db : AdminDb) (t : Transaction)
    (found : transaction_by id db ≡ some t) where
  approved_outcome :
      (approve_transaction now id admin reason db).0 ≡ ok "Transaction approved successfully"
  unfolding approve_transaction update_transaction
  approved_outcome = rw (found, update_transaction)

  approved_documents :
      (approve_transaction now id admin reason db).1.documents
      ≡ modify_where (pending_in id) (as_verified now admin) db.documents
  unfolding approve_transaction update_transaction
  approved_documents = rw (found, update_transaction)

  approved_transactions :
      (approve_transaction now id admin reason db).1.transactions
      ≡ modify_unique (λ x. x.id) id as_approved db.transactions
  unfolding approve_transaction update_transaction
  approved_transactions = rw (found, update_transaction)

  -- Approving a transaction that exists succeeds, whatever its status is and whatever has become of
  -- its documents. It becomes APPROVED, at the step ADMIN_REVIEW, and the other transactions stay;
  -- its documents that are PENDING become VERIFIED by the administrator at that time, and every
  -- other document stays as it was, one that FAILED too.
  pub approve_transaction_lem :
      ((approve_transaction now id admin reason db).0 ≡ ok "Transaction approved successfully")
      × ((j : ℕ)
          → transaction_by j (approve_transaction now id admin reason db).1
            ≡ map_if
                (id == j)
                (λ x. record x {
                  status = TransactionStatus.approved;
                  current_step = TransactionStep.admin_review;
                })
                (transaction_by j db))
      × ((j : ℕ)
          → document_by j (approve_transaction now id admin reason db).1
            ≡ map_found
                (λ d.
                  if d.transaction_id == id && is_untouched d.verification_status
                  then record d {
                    verification_status = VerificationStatus.verified;
                    verified_at = some now;
                    verified_by = some admin;
                  }
                  else d)
                (document_by j db))
  approve_transaction_lem = (
    approved_outcome,
    λ j.
        ap (find_unique (λ x. x.id) j) approved_transactions
        ∙ find_unique-modify_unique (λ x. x.id) as_approved (λ x. refl) id j db.transactions,
    λ j.
        ap (find_unique (λ x. x.id) j) approved_documents
        ∙ find_unique-modify_where_found (λ x. x.id) (pending_in id) (as_verified now admin)
            (λ x. refl) j db.documents
        ∙ map_found-ext _ _ (written now id admin) (document_by j db),
  )
