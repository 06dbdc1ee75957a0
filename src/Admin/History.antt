-- ===== src/Admin/History.antt =====
-- The administrators' methods called in any order.
use sohcahtoa_api.Prelude.{
  ℕ, ◌≡◌, refl, sym, subst, Bool, true, false, Option, none, some, String, List, [], ◌∷◌, is_some,
  Option-cases, inl, inr, arith, ◌==◌,
}
use sohcahtoa_api.Exec.{Exec, after, modify}
use sohcahtoa_api.Exec.Keeps.{Keeps, keeps_rules}
use sohcahtoa_api.Table.{modify_where}
use sohcahtoa_api.Table.Laws.{AllFound, AllFound-modify_unique, AllFound-modify_where}
use sohcahtoa_api.Admin.{
  AdminDb, Transaction, Document, VerificationStatus, Event, StepEntry, HistoryEntry, document_by,
  update_transaction, update_document, log_step, add_history, publish, publish_for,
  request_information, review_transaction, approve_transaction, as_verified, pending_in,
  reject_transaction, approve_document, reject_document, request_more_info, settle_transaction,
  decide, reopen,
}

-- A call of a method that writes, with its arguments.
pub data Call : Type 0 where
  ask_information : ℕ → Call
  review : ℕ → ℕ → ℕ → Option String → Call
  approve : ℕ → ℕ → ℕ → Option String → Call
  reject : ℕ → ℕ → ℕ → String → Call
  accept_document : ℕ → ℕ → ℕ → ℕ → Option String → Call
  refuse_document : ℕ → ℕ → ℕ → ℕ → Option String → Call
  send_back : ℕ → ℕ → ℕ → String → Call
  settle : ℕ → ℕ → ℕ → String → String → Call

-- The database after a call, which may have thrown.
unfoldable pub step : Call → AdminDb → AdminDb
step (ask_information id) = after (request_information id)
step (review now id admin notes) = after (review_transaction now id admin notes)
step (approve now id admin reason) = after (approve_transaction now id admin reason)
step (reject now id admin reason) = after (reject_transaction now id admin reason)
step (accept_document now id d admin notes) = after (approve_document now id d admin notes)
step (refuse_document now id d admin reason) = after (reject_document now id d admin reason)
step (send_back id d admin comment) = after (request_more_info id d admin comment)
step (settle now id admin reference method) =
    after (settle_transaction now id admin reference method)

unfoldable pub run : List Call → AdminDb → AdminDb
unfolding step
run [] db = db
run (c ∷ cs) db = run cs (step c db)

abbrev pub is_decided : VerificationStatus → Bool
is_decided VerificationStatus.verified = true
is_decided VerificationStatus.failed = true
is_decided _ = false

abbrev pub HasVerifier : Document → Type 0
HasVerifier d = is_decided d.verification_status ≡ true → is_some d.verified_by ≡ true

record Inv (db : AdminDb) : Type 0 where
  pub rows : AllFound (λ d. d.id) HasVerifier db.documents

frame-Inv :
    {A : Type 0} (m : Exec AdminDb A)
    → ((db : AdminDb) → (m db).1.documents ≡ db.documents)
    → Keeps Inv m
frame-Inv m same = record {
  at = λ db h. record { rows = subst (AllFound (λ d. d.id) HasVerifier) (sym (same db)) h.rows };
}

update_transaction-Inv :
    (id : ℕ) (f : Transaction → Transaction) → Keeps Inv (update_transaction id f)
unfolding update_transaction
update_transaction-Inv id f = frame-Inv (update_transaction id f) (λ db. ground arith)

log_step-Inv : (s : StepEntry) → Keeps Inv (modify (log_step s))
log_step-Inv s = frame-Inv (modify (log_step s)) (λ db. refl)

add_history-Inv : (e : HistoryEntry) → Keeps Inv (modify (add_history e))
add_history-Inv e = frame-Inv (modify (add_history e)) (λ db. refl)

publish-Inv : (e : Event) → Keeps Inv (modify (publish e))
publish-Inv e = frame-Inv (modify (publish e)) (λ db. refl)

publish_for-Inv : (id : ℕ) (e : Transaction → Event) → Keeps Inv (modify (publish_for id e))
publish_for-Inv id e = frame-Inv (modify (publish_for id e)) (λ db. ground arith)

set_documents-Inv :
    (p : Document → Bool) (f : Document → Document)
    → ((d : Document) → (f d).id ≡ d.id)
    → ((d : Document) → HasVerifier d → HasVerifier (f d))
    → Keeps Inv (modify (λ db. record db { documents = modify_where p f db.documents }))
set_documents-Inv p f keeps good = record {
  at = λ db h. record {
    rows =
        AllFound-modify_where (λ d. d.id) HasVerifier p f keeps db.documents (λ _ d _ _ q. good d q)
          h.rows;
  };
}

update_document-Inv :
    (id : ℕ) (f : Document → Document)
    → ((d : Document) → (f d).id ≡ d.id)
    → ((d : Document) → HasVerifier d → HasVerifier (f d))
    → Keeps Inv (update_document id f)
unfolding update_document
update_document-Inv id f keeps good = record {
  at = λ db h. elim (Option-cases (document_by id db)) [
    | inl missing ↦ rw (missing, update_document) h
    | inr (d, found) ↦
        rw (found, update_document)
          (record {
            rows =
                AllFound-modify_unique (λ x. x.id) HasVerifier id f keeps db.documents
                  (λ x _ q. good x q) h.rows;
          })
  ];
}

decide-Inv :
    (now : ℕ) (status : VerificationStatus) (notes : Option String) (admin id : ℕ)
    → Keeps Inv (update_document id (decide now status notes admin))
decide-Inv now status notes admin id =
    update_document-Inv id (decide now status notes admin) (λ d. refl) (λ d _ _. refl)

reopen-Inv : (comment : String) (id : ℕ) → Keeps Inv (update_document id (reopen comment))
reopen-Inv comment id =
    update_document-Inv id (reopen comment) (λ d. refl) (λ d _ e. absurd (ground arith))

verify_pending-Inv :
    (now id admin : ℕ)
    → Keeps Inv (
        modify (λ db. record db {
          documents = modify_where (pending_in id) (as_verified now admin) db.documents;
        }))
verify_pending-Inv now id admin =
    set_documents-Inv (pending_in id) (as_verified now admin) (λ d. refl) (λ d _ _. refl)

recheck-Inv :
    (id : ℕ)
    → Keeps Inv (
        modify (λ db. record db {
          documents =
              modify_where
                (λ d. d.transaction_id == id)
                (λ d. record d { verification_status = VerificationStatus.requires_manual_review })
                db.documents;
        }))
recheck-Inv id =
    set_documents-Inv (λ d. d.transaction_id == id)
      (λ d. record d { verification_status = VerificationStatus.requires_manual_review })
      (λ d. refl) (λ d _ e. absurd (ground arith))

module _ (now id d admin : ℕ) (notes : Option String) (text method : String) where
  step_information : Keeps Inv (request_information id)
  unfolding request_information
  step_information = search (keeps_rules, update_transaction-Inv, recheck-Inv) depth 8

  step_review : Keeps Inv (review_transaction now id admin notes)
  unfolding review_transaction
  step_review = search (keeps_rules, update_transaction-Inv, log_step-Inv, add_history-Inv) depth 10

  step_approve : Keeps Inv (approve_transaction now id admin notes)
  unfolding approve_transaction
  step_approve =
      search (keeps_rules, update_transaction-Inv, verify_pending-Inv, add_history-Inv, publish-Inv)
        depth 12

  step_reject : Keeps Inv (reject_transaction now id admin text)
  unfolding reject_transaction
  step_reject = search (keeps_rules, update_transaction-Inv, add_history-Inv, publish-Inv) depth 10

  step_accept : Keeps Inv (approve_document now id d admin notes)
  unfolding approve_document
  step_accept = search (keeps_rules, decide-Inv, publish_for-Inv) depth 12

  step_refuse : Keeps Inv (reject_document now id d admin notes)
  unfolding reject_document
  step_refuse = search (keeps_rules, decide-Inv, add_history-Inv, publish_for-Inv) depth 12

  step_back : Keeps Inv (request_more_info id d admin text)
  unfolding request_more_info
  step_back = search (keeps_rules, reopen-Inv, add_history-Inv) depth 12

  step_settle : Keeps Inv (settle_transaction now id admin text method)
  unfolding settle_transaction
  step_settle = search (keeps_rules, update_transaction-Inv, log_step-Inv, add_history-Inv) depth 10

step-Inv : (c : Call) (db : AdminDb) → Inv db → Inv (step c db)
unfolding step
step-Inv (ask_information id) db h = (step_information 0 id 0 0 none "" "").at db h
step-Inv (review now id admin notes) db h = (step_review now id 0 admin notes "" "").at db h
step-Inv (approve now id admin reason) db h = (step_approve now id 0 admin reason "" "").at db h
step-Inv (reject now id admin reason) db h = (step_reject now id 0 admin none reason "").at db h
step-Inv (accept_document now id d admin notes) db h =
    (step_accept now id d admin notes "" "").at db h
step-Inv (refuse_document now id d admin reason) db h =
    (step_refuse now id d admin reason "" "").at db h
step-Inv (send_back id d admin comment) db h = (step_back 0 id d admin none comment "").at db h
step-Inv (settle now id admin reference method) db h =
    (step_settle now id 0 admin none reference method).at db h

run-Inv : (cs : List Call) (db : AdminDb) → Inv db → Inv (run cs db)
unfolding run
run-Inv [] db h = h
run-Inv (c ∷ cs) db h = run-Inv cs (step c db) (step-Inv c db h)

-- Whatever methods are called, from a database in which every document that a lookup finds has a
-- verifier if it is VERIFIED or FAILED: so has every such document afterwards.
pub decisions_are_signed :
    (cs : List Call) (db : AdminDb)
    → AllFound (λ d. d.id) HasVerifier db.documents
    → (id : ℕ) (d : Document) → document_by id (run cs db) ≡ some d
    → is_decided d.verification_status ≡ true
    → is_some d.verified_by ≡ true
decisions_are_signed cs db start id d found decided =
    (run-Inv cs db (record { rows = start })).rows.at id d found decided
