-- ===== src/Customer/History.antt =====
-- Any sequence of createTransaction and uploadDocuments.
use sohcahtoa_api.Prelude.{
  ℕ, ◌==◌, String, Bool, true, false, none, some, ◌||◌, List, [], ◌∷◌, ◌++◌, any, ◌≡◌, refl, sym,
  arith, subst, ==_refl, if◌then◌else◌,
}
use sohcahtoa_api.Errors.{ok}
use sohcahtoa_api.Exec.{after, result, gets, pure, raise_if, ◌>>◌}
use sohcahtoa_api.Exec.Keeps.{any-Keeps, keeps_rules}
use sohcahtoa_api.Exec.Triples.{Yields, Yields-bind, Yields-after}
use sohcahtoa_api.Table.{find_unique}
use sohcahtoa_api.Table.Laws.{find_unique-append_none}
use sohcahtoa_api.Store.Rows.{TransactionStatus}
use sohcahtoa_api.Cbn.Rules.{TransactionType}
use sohcahtoa_api.Cbn.Documents.{Uploaded}
use sohcahtoa_api.Customer.Rows.{Transaction, CustomerDb, TransactionRequest, File, World}
use sohcahtoa_api.Customer.Quotes.{Quote, is_nan}
use sohcahtoa_api.Customer.Creation.{
  create, create_transaction_row, create_transaction, CreatedTransaction, new_transaction,
  initial_status, respond, complete_creation, has_documents,
}
use sohcahtoa_api.Customer.Uploads.{upload_documents}
use sohcahtoa_api.Customer.Statuses.{
  status_of, HasStatus, create_transaction-Keeps, upload_documents-Keeps, schedule-Keeps,
  add_step-Keeps, add_documents-Keeps,
}

pub data CustomerCall : Type 0 where
  creates : TransactionRequest → CustomerCall
  uploads : ℕ → ℕ → String → List File → CustomerCall

unfoldable pub perform : World → CustomerCall → CustomerDb → CustomerDb
perform w (creates r) db = after (create_transaction w r) db
perform w (uploads id user type files) db = after (upload_documents w id user type files) db

unfoldable pub run : List (World × CustomerCall) → CustomerDb → CustomerDb
run [] db = db
run ((w, c) ∷ calls) db = run calls (perform w c db)

perform-HasStatus :
    (w : World) (c : CustomerCall) (id : ℕ) (s : TransactionStatus) (db : CustomerDb)
    → HasStatus id s db
    → HasStatus id s (perform w c db)
unfolding perform
perform-HasStatus w (creates r) id s db h = (create_transaction-Keeps w r).at db h
perform-HasStatus w (uploads t user type files) id s db h =
    (upload_documents-Keeps w t user type files).at db h

run-HasStatus :
    (calls : List (World × CustomerCall)) (id : ℕ) (s : TransactionStatus) (db : CustomerDb)
    → HasStatus id s db
    → HasStatus id s (run calls db)
unfolding run
run-HasStatus [] id s db h = h
run-HasStatus ((w, c) ∷ calls) id s db h =
    run-HasStatus calls id s (perform w c db) (perform-HasStatus w c id s db h)

-- the transaction that the answer names has the status of the request
abbrev Submitted : TransactionRequest → CreatedTransaction → CustomerDb → Type 0
Submitted r c db = HasStatus c.transaction_id (initial_status r) db

abbrev taken : Transaction → List Transaction → Bool
taken row ts = any (λ t. t.id == row.id || t.reference_number == row.reference_number) ts

find-taken-false :
    (row : Transaction) (ts : List Transaction)
    → taken row ts ≡ false
    → find_unique (λ t. t.id) row.id ts ≡ none
unfolding find_unique
find-taken-false row [] h = refl
find-taken-false row (t ∷ ts) h = ground (arith, find-taken-false row ts)

appended :
    (clash : Bool) (row : Transaction) (db : CustomerDb)
    → clash ≡ taken row db.transactions
    → let made =
        create clash row (λ d. record d { transactions = d.transactions ++ row ∷ [] }) db in
      (t : Transaction) → made.0 ≡ ok t → HasStatus row.id row.status made.1
unfolding status_of find_unique
appended true row db same t e = absurd (ground arith)
appended false row db same t e = record {
  found =
      rw
        (find_unique-append_none (λ t. t.id) row.id db.transactions (row ∷ [])
          (find-taken-false row db.transactions (sym same)))
        (ground (arith, ==_refl row.id));
}

module _ {P : CustomerDb → Type 0} where
  gets-Yields : {A : Type 0} (f : CustomerDb → A) → Yields P (gets f) (λ a db. a ≡ f db)
  gets-Yields f = record { at = λ db h a e. ground arith }

create_transaction_row-Yields :
    (w : World) (row : Transaction) (q : Quote)
    → Yields (λ db. Unit {0}) (create_transaction_row w row q) (λ made. HasStatus row.id row.status)
unfolding create_transaction_row
create_transaction_row-Yields w row q =
    Yields-after (raise_if (is_nan q) w.nan_error) _ (search keeps_rules) (λ u.
      Yields-bind _ _ (gets-Yields (λ db. taken row db.transactions))
        (λ clash. record { at = λ db h made e. appended clash row db h made e }))

answered :
    (w : World) (r : TransactionRequest) (type : TransactionType) (us : List Uploaded)
    → Yields (HasStatus w.fresh_id (initial_status r)) (pure (respond w r type us)) (Submitted r)
answered w r type us = record {
  at = λ db h c e.
      let same : respond w r type us ≡ c = ground arith in
      subst (λ x. HasStatus x.transaction_id (initial_status r) db) same h;
}

complete_creation-Yields :
    (w : World) (r : TransactionRequest) (type : TransactionType)
    → Yields (HasStatus w.fresh_id (initial_status r)) (complete_creation w r type) (Submitted r)
unfolding complete_creation
complete_creation-Yields w r type =
    search
      (Yields-after, keeps_rules, add_step-Keeps, add_documents-Keeps, schedule-Keeps, answered)
      depth 40

created :
    (w : World) (r : TransactionRequest) (type : TransactionType) (q : Quote)
    → Yields
        (λ db. Unit {0})
        (create_transaction_row w (new_transaction w r type q) q >> complete_creation w r type)
        (Submitted r)
created w r type q =
    Yields-bind (create_transaction_row w (new_transaction w r type q) q) _
      (create_transaction_row-Yields w (new_transaction w r type q) q)
      (λ row. complete_creation-Yields w r type)

create_transaction-Yields :
    (w : World) (r : TransactionRequest)
    → Yields (λ db. Unit {0}) (create_transaction w r) (Submitted r)
unfolding create_transaction
create_transaction-Yields w r = search (Yields-after, any-Keeps, created) depth 40

-- A transaction that createTransaction made keeps the status it was given through any later calls of
-- createTransaction and uploadDocuments, in whatever worlds: AWAITING_VERIFICATION if the request
-- had documents, of whatever types, and DRAFT if it had none, whatever is uploaded afterwards.
pub statuses_stay :
    (w : World) (r : TransactionRequest) (db : CustomerDb) (c : CreatedTransaction)
    (calls : List (World × CustomerCall))
    → result (create_transaction w r) db ≡ ok c
    → status_of c.transaction_id (run calls (after (create_transaction w r) db))
      ≡ some (
          if has_documents r.documents
          then TransactionStatus.awaiting_verification
          else TransactionStatus.draft)
statuses_stay w r db c calls made =
    let first = (create_transaction-Yields w r).at db tt c made in
    let left = after (create_transaction w r) db in
    let there = run-HasStatus calls c.transaction_id (initial_status r) left first in there.found
