-- ===== src/Customer/Statuses.antt =====
-- createTransaction and uploadDocuments leave the status of a transaction alone that is there.
use sohcahtoa_api.Prelude.{
  ℕ, ◌==◌, String, Bool, true, false, Option, none, some, is_some, not, ◌&&◌, ◌||◌, List, [], ◌∷◌,
  ◌++◌, ◌≡◌, refl, arith, Option-cases, inl, inr,
}
use sohcahtoa_api.Exec.{modify}
use sohcahtoa_api.Exec.Keeps.{Keeps, keeps_rules}
use sohcahtoa_api.Table.{find_unique, modify_unique}
use sohcahtoa_api.Table.Laws.{find_unique-append_some, find_unique-modify_unique, map_if}
use sohcahtoa_api.Store.Rows.{TransactionStatus, TransactionStep}
use sohcahtoa_api.Cbn.Rules.{TransactionType}
use sohcahtoa_api.Customer.Rows.{
  Transaction, StepLog, TransactionDocument, CashPickup, PickupLocation, Kyc, CustomerDb,
  TransactionRequest, File, World,
}
use sohcahtoa_api.Customer.Quotes.{Quote}
use sohcahtoa_api.Customer.Creation.{
  create, create_kyc, kyc_if, update_kyc, create_transaction_row, create_pickup, schedule,
  create_transaction, add_step, add_documents, complete_creation,
}
use sohcahtoa_api.Customer.Uploads.{upload_file, upload_each, upload_documents, advance, advanced}

abbrev status_in : Option Transaction → Option TransactionStatus
status_in none = none
status_in (some t) = some t.status

-- the status of the transaction with this id
unfoldable pub status_of : ℕ → CustomerDb → Option TransactionStatus
status_of id db = status_in (find_unique (λ t. t.id) id db.transactions)

pub record HasStatus (id : ℕ) (s : TransactionStatus) (db : CustomerDb) : Type 0 where
  pub found : status_of id db ≡ some s

map_if-status : (b : Bool) (o : Option Transaction) → status_in (map_if b advanced o) ≡ status_in o
map_if-status b none = refl
map_if-status true (some x) = refl
map_if-status false (some x) = refl

same-HasStatus :
    (id : ℕ) (s : TransactionStatus) (db left : CustomerDb)
    → left.transactions ≡ db.transactions
    → HasStatus id s db
    → HasStatus id s left
unfolding status_of
same-HasStatus id s db left same h = record { found = rw same h.found }

module _ {id : ℕ} {s : TransactionStatus} where
  pub Keeps-same :
      (f : CustomerDb → CustomerDb)
      → ((db : CustomerDb) → (f db).transactions ≡ db.transactions)
      → Keeps (HasStatus id s) (modify f)
  Keeps-same f same = record { at = λ db h. same-HasStatus id s db (f db) (same db) h }

  pub add_step-Keeps : (l : StepLog) → Keeps (HasStatus id s) (modify (add_step l))
  add_step-Keeps l = Keeps-same (add_step l) (λ db. refl)

  pub add_documents-Keeps :
      (ds : List TransactionDocument) → Keeps (HasStatus id s) (modify (add_documents ds))
  add_documents-Keeps ds = Keeps-same (add_documents ds) (λ db. refl)

  create-Keeps :
      {A : Type 0} (clash : Bool) (row : A) (write : CustomerDb → CustomerDb)
      → Keeps (HasStatus id s) (modify write)
      → Keeps (HasStatus id s) (create clash row write)
  create-Keeps true row write k = record { at = λ db h. h }
  create-Keeps false row write k = record { at = k.at }

  pub create_kyc-Keeps : (row : Kyc) → Keeps (HasStatus id s) (create_kyc row)
  unfolding create_kyc
  create_kyc-Keeps row = search (keeps_rules, create-Keeps, Keeps-same)

  kyc_if-Keeps : (b : Bool) (r : TransactionRequest) → Keeps (HasStatus id s) (kyc_if b r)
  kyc_if-Keeps false r = search keeps_rules
  kyc_if-Keeps true r = search (keeps_rules, create_kyc-Keeps)

  update_kyc-Keeps :
      (r : TransactionRequest) (kyc : Option Kyc) → Keeps (HasStatus id s) (update_kyc r kyc)
  unfolding update_kyc
  update_kyc-Keeps r kyc = kyc_if-Keeps ((is_some r.bvn || is_some r.nin) && not (is_some kyc)) r

  append-Keeps :
      (row : Transaction)
      → Keeps
          (HasStatus id s)
          (modify (λ db. record db { transactions = db.transactions ++ row ∷ [] }))
  unfolding status_of
  append-Keeps row = record {
    at = λ db h. elim (Option-cases (find_unique (λ t. t.id) id db.transactions)) [
      | inl missing ↦ absurd (ground (arith, h.found))
      | inr (t, there) ↦ record {
        found =
            rw (find_unique-append_some (λ t. t.id) id db.transactions (row ∷ []) t there)
              (ground (arith, h.found));
      }
    ];
  }

  pub create_transaction_row-Keeps :
      (w : World) (row : Transaction) (q : Quote)
      → Keeps (HasStatus id s) (create_transaction_row w row q)
  unfolding create_transaction_row
  create_transaction_row-Keeps w row q = search (keeps_rules, create-Keeps, append-Keeps)

  create_pickup-Keeps : (row : CashPickup) → Keeps (HasStatus id s) (create_pickup row)
  unfolding create_pickup
  create_pickup-Keeps row = search (keeps_rules, create-Keeps, Keeps-same)

  pub schedule-Keeps :
      (w : World) (r : TransactionRequest) (p : Option PickupLocation)
      → Keeps (HasStatus id s) (schedule w r p)
  schedule-Keeps w r none = search keeps_rules
  schedule-Keeps w r (some p) = search (keeps_rules, create_pickup-Keeps)

  pub complete_creation-Keeps :
      (w : World) (r : TransactionRequest) (type : TransactionType)
      → Keeps (HasStatus id s) (complete_creation w r type)
  unfolding complete_creation
  complete_creation-Keeps w r type =
      search (keeps_rules, add_step-Keeps, add_documents-Keeps, schedule-Keeps) depth 20

  pub create_transaction-Keeps :
      (w : World) (r : TransactionRequest) → Keeps (HasStatus id s) (create_transaction w r)
  unfolding create_transaction
  create_transaction-Keeps w r =
      search (keeps_rules, update_kyc-Keeps, create_transaction_row-Keeps, complete_creation-Keeps)
        depth 40

  upload_file-Keeps :
      (w : World) (t user : ℕ) (type : String) (file : File)
      → Keeps (HasStatus id s) (upload_file w t user type file)
  unfolding upload_file
  upload_file-Keeps w t user type file = search (keeps_rules, add_documents-Keeps)

  upload_each-Keeps :
      (w : World) (t user : ℕ) (type : String) (files : List File)
      → Keeps (HasStatus id s) (upload_each w t user type files)
  unfolding upload_each
  upload_each-Keeps w t user type [] = search keeps_rules
  upload_each-Keeps w t user type (f ∷ files) =
      search (keeps_rules, upload_file-Keeps w t user type f, upload_each-Keeps w t user type files)

  -- the step changes, the status does not
  advanced-Keeps :
      (t : ℕ) → Keeps (HasStatus id s) (modify (advance TransactionStep.personal_info t))
  unfolding status_of modify_unique
  advanced-Keeps t = record {
    at = λ db h. record {
      found =
          rw
            (
              find_unique-modify_unique (λ t. t.id) advanced (λ x. refl) t id db.transactions,
              map_if-status (t == id) (find_unique (λ t. t.id) id db.transactions),
            )
            h.found;
    };
  }

  advance-Keeps :
      (step : TransactionStep) (t : ℕ) → Keeps (HasStatus id s) (modify (advance step t))
  advance-Keeps TransactionStep.personal_info t = advanced-Keeps t
  advance-Keeps _ t = record { at = λ db h. h }

  pub upload_documents-Keeps :
      (w : World) (t user : ℕ) (type : String) (files : List File)
      → Keeps (HasStatus id s) (upload_documents w t user type files)
  unfolding upload_documents
  upload_documents-Keeps w t user type files =
      search (keeps_rules, upload_each-Keeps, advance-Keeps) depth 40
