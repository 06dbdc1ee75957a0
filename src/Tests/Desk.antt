-- ===== src/Tests/Desk.antt =====
-- Administrators' decisions on a small database.
use sohcahtoa_api.Prelude.{
  ℕ, ◌≡◌, refl, true, none, some, [], ◌∷◌, ◌==◌, ◌&&◌, is_some, if◌then◌else◌, arith,
}
use sohcahtoa_api.Errors.{ok}
use sohcahtoa_api.Table.{find_unique, modify_where, modify_unique}
use sohcahtoa_api.Table.Laws.{AllFound, map_if, map_found}
use sohcahtoa_api.Store.Rows.{TransactionStatus, TransactionStep}
use sohcahtoa_api.Admin.{
  AdminDb, Transaction, Document, VerificationStatus, transaction_by, document_by,
  update_transaction, approve_transaction, as_verified,
}
use sohcahtoa_api.Admin.Approval.{is_untouched, approve_transaction_lem}
use sohcahtoa_api.Admin.History.{approve, run, step, HasVerifier, decisions_are_signed}

abbrev deal : Transaction
deal = record {
  id = 70;
  user_id = 8;
  status = TransactionStatus.rejected;
  current_step = TransactionStep.admin_review;
  rejection_reason = none;
  rejected_at = none;
  disbursement_method = none;
}

abbrev visa : Document
visa = record {
  id = 90;
  transaction_id = 70;
  document_type = "VISA";
  verification_status = VerificationStatus.pending;
  verification_notes = none;
  verified_at = none;
  verified_by = none;
}

abbrev desk : AdminDb
desk = record {
  transactions = deal ∷ [];
  documents = visa ∷ [];
  steps = [];
  history = [];
  events = [];
}

found_deal : transaction_by 70 desk ≡ some deal
unfolding find_unique
found_deal = refl

approve_transaction_lem_example :
    ((approve_transaction 1000 70 5 none desk).0 ≡ ok "Transaction approved successfully")
    × ((j : ℕ)
        → transaction_by j (approve_transaction 1000 70 5 none desk).1
          ≡ map_if
              (70 == j)
              (λ x. record x {
                status = TransactionStatus.approved;
                current_step = TransactionStep.admin_review;
              })
              (transaction_by j desk))
    × ((j : ℕ)
        → document_by j (approve_transaction 1000 70 5 none desk).1
          ≡ map_found
              (λ d.
                if d.transaction_id == 70 && is_untouched d.verification_status
                then record d {
                  verification_status = VerificationStatus.verified;
                  verified_at = some 1000;
                  verified_by = some 5;
                }
                else d)
              (document_by j desk))
approve_transaction_lem_example = approve_transaction_lem 1000 70 5 none desk deal found_deal

none_decided : AllFound (λ d. d.id) HasVerifier desk.documents
unfolding find_unique
none_decided = record { at = λ j d found decided. ground arith }

abbrev verified_visa : Document
verified_visa = as_verified 1000 5 visa

approved_run : document_by 90 (run (approve 1000 70 5 none ∷ []) desk) ≡ some verified_visa
unfolding run step approve_transaction update_transaction find_unique modify_where modify_unique
approved_run = refl

decisions_are_signed_example : is_some verified_visa.verified_by ≡ true
decisions_are_signed_example =
    decisions_are_signed (approve 1000 70 5 none ∷ []) desk none_decided 90 verified_visa
      approved_run refl
