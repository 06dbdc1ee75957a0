-- ===== src/Agents/Transactions.antt =====
-- createTransaction, uploadDocuments and recordDisbursement of
-- src/modules/agents/services/agent-transaction.service.ts. The metadata of a settlement and the
-- new value in the history are left out.
use sohcahtoa_api.Prelude.{
  ℕ, ◌==◌, String, Bool, true, false, not, ◌&&◌, ◌||◌, Option, none, some, List, [], ◌∷◌, ◌++◌,
  find, any, or_option, Text, text_eq, if◌then◌else◌,
}
use sohcahtoa_api.Errors.{Result, ok, err, invalid, not_found_error, prisma, unique_violation}
use sohcahtoa_api.Exec.{Exec, pure, gets, modify, raise_if, or_raise, ◌>>=◌, ◌>>◌}
use sohcahtoa_api.Table.{find_unique, modify_unique}
use sohcahtoa_api.Store.Rows.{TransactionStatus, TransactionStep, SettlementStatus}
use sohcahtoa_api.Cbn.Rules.{DisbursementMethod}
use sohcahtoa_api.Cbn.Documents.{DocumentStatus}
use sohcahtoa_api.Customer.Rows.{Transaction, CustomerDb, TransactionRequest, File, World}
use sohcahtoa_api.Customer.Creation.{create_transaction, CreatedTransaction}
use sohcahtoa_api.Customer.Uploads.{upload_documents}
use sohcahtoa_api.Agents.Rows.{
  AgentUser, AgentProfile, Payout, AgentDb, DisbursementInput, AgentWorld,
}

-- a method of the customer service, on the same database
abbrev put_customer : {A : Type 0} → AgentDb → Result A × CustomerDb → Result A × AgentDb
put_customer db (r, left) = (r, record db { customer = left })

abbrev pub in_customer : {A : Type 0} → Exec CustomerDb A → Exec AgentDb A
in_customer m db = put_customer db (m db.customer)

abbrev pub roll_back : {A : Type 0} → AgentDb → Result A × AgentDb → Result A × AgentDb
roll_back db (ok a, left) = (ok a, left)
roll_back db (err e, left) = (err e, db)

-- prisma.$transaction: an error undoes the writes
abbrev pub atomically : {A : Type 0} → Exec AgentDb A → Exec AgentDb A
atomically m db = roll_back db (m db)

abbrev pub keep_file : Result String → Exec AgentDb String
keep_file (ok url) db = (ok url, record db { files = db.files ++ url ∷ [] })
keep_file (err e) db = (err e, db)

-- uploadFile, whose file stays whatever comes after
abbrev pub upload_receipt : AgentWorld → File → Exec AgentDb String
upload_receipt w file = keep_file (w.upload_file file)

abbrev pub agent_user : Option AgentUser → Option AgentUser
agent_user none = none
agent_user (some u) = if u.is_agent then some u else none

unfoldable pub resolve_agent : ℕ → Exec AgentDb AgentProfile
resolve_agent user = do
  found ← gets (λ db. find_unique (λ u. u.id) user db.users)
  u ← or_raise (agent_user found) (invalid "Only agents can create transactions for customers")
  profile ← gets (λ db. find (λ a. text_eq a.email u.email) db.agents)
  or_raise profile (invalid "Agent profile not found")

-- the customer is none where userId is empty or missing
unfoldable pub create_for_customer :
    World → ℕ → Option ℕ → TransactionRequest → Exec AgentDb CreatedTransaction
create_for_customer w user customer r = do
  id ←
      or_raise customer
        (invalid "userId is required (customer for whom the transaction is created)")
  a ← resolve_agent user
  in_customer (create_transaction w (record r { user_id = id; created_by_agent_id = some a.id }))

abbrev pub made_by : ℕ → Option ℕ → Bool
made_by agent none = false
made_by agent (some a) = a == agent

-- findFirst({ where: { id, createdByAgentId: agent.id } })
abbrev pub created_by : ℕ → ℕ → AgentDb → Option Transaction
created_by id agent db =
    find (λ t. t.id == id && made_by agent t.created_by_agent_id) db.customer.transactions

unfoldable pub upload_for_customer :
    World → ℕ → ℕ → String → List File → Exec AgentDb (List DocumentStatus)
upload_for_customer w user id type files = do
  a ← resolve_agent user
  found ← gets (created_by id a.id)
  t ← or_raise found (not_found_error "Transaction not found or you are not the creating agent")
  in_customer (upload_documents w id t.user_id type files)

abbrev pub is_over : TransactionStatus → Bool
is_over TransactionStatus.completed = true
is_over TransactionStatus.cancelled = true
is_over _ = false

abbrev pub is_approved : TransactionStatus → Bool
is_approved TransactionStatus.approved = true
is_approved _ = false

abbrev pub disbursing : DisbursementMethod → Transaction → Transaction
disbursing method t = record t {
  disbursement_method = some method;
  status = TransactionStatus.disbursement_in_progress;
  current_step = TransactionStep.disbursement;
}

abbrev put_transactions : List Transaction → AgentDb → AgentDb
put_transactions ts db = record db { customer = record db.customer { transactions = ts } }

-- transaction.update with `create` of a history row
abbrev pub start_disbursement : ℕ → DisbursementMethod → Option String → AgentDb → AgentDb
start_disbursement id method notes db =
    put_transactions (modify_unique (λ t. t.id) id (disbursing method) db.customer.transactions)
      (record db {
        history =
            db.history
            ++ record { transaction_id = id; action = "DISBURSEMENT_RECORDED"; notes = notes } ∷ [];
      })

abbrev pub is_for : ℕ → Payout → Bool
is_for transaction p = made_by transaction p.transaction_id

abbrev pub payout_of : ℕ → AgentDb → Option Payout
payout_of transaction db = find (is_for transaction) db.payouts

-- notes that are not given leave the column alone
abbrev pub paid : ℕ → Text → DisbursementMethod → String → Option String → Payout → Payout
paid amount currency method url notes p = record p {
  amount = amount;
  currency = currency;
  payment_method = method;
  payment_proof = some url;
  notes = or_option notes p.notes;
  status = SettlementStatus.completed;
}

abbrev pub new_payout :
    AgentWorld → ℕ → ℕ → ℕ → Text → DisbursementMethod → String → Option String → Payout
new_payout w agent transaction amount currency method url notes = record {
  id = w.fresh_id;
  transaction_id = some transaction;
  reference_number = w.reference_number;
  amount = amount;
  currency = currency;
  status = SettlementStatus.completed;
  payment_method = method;
  payment_proof = some url;
  notes = notes;
  initiated_by = agent;
  approved_by = none;
}

unfoldable pub create_payout : Payout → Exec AgentDb Payout
create_payout row db =
    if any (λ p. p.id == row.id || p.reference_number == row.reference_number) db.payouts
    then (err (prisma unique_violation), db)
    else (ok row, record db { payouts = db.payouts ++ row ∷ [] })

-- existingOutbound, or a new settlement
abbrev pub settle :
    Option Payout
    → AgentWorld
    → ℕ
    → ℕ
    → ℕ
    → Text
    → DisbursementMethod
    → String
    → Option String
    → Exec AgentDb Payout
settle none w agent id amount currency method url notes =
    create_payout (new_payout w agent id amount currency method url notes)
settle (some p) w agent id amount currency method url notes = do
  modify (λ db. record db {
    payouts = modify_unique (λ p. p.id) p.id (paid amount currency method url notes) db.payouts;
  })
  pure (paid amount currency method url notes p)

unfoldable pub disburse :
    AgentWorld
    → ℕ
    → ℕ
    → ℕ
    → Text
    → DisbursementMethod
    → String
    → Option String
    → Exec AgentDb Payout
unfolding create_payout
disburse w agent id amount currency method url notes = do
  modify (start_disbursement id method notes)
  existing ← gets (payout_of id)
  settle existing w agent id amount currency method url notes

unfoldable pub record_disbursement : AgentWorld → ℕ → DisbursementInput → Exec AgentDb Payout
unfolding disburse
record_disbursement w user input = do
  id ← or_raise input.transaction_id (invalid "transactionId is required")
  method ← or_raise input.disbursement_method (invalid "disbursementMethod is required")
  raise_if (input.total_amount == 0) (invalid "totalAmount must be a positive number")
  file ← or_raise input.receipt_file (invalid "payment receipt file is required")
  a ← resolve_agent user
  found ← gets (created_by id a.id)
  t ← or_raise found (not_found_error "Transaction not found or you are not the creating agent")
  raise_if (is_over t.status)
      (invalid "Cannot record disbursement for a completed or cancelled transaction")
  raise_if (not (is_approved t.status))
      (invalid "Disbursement can only be recorded for APPROVED transactions")
  url ← upload_receipt w file
  atomically (disburse w a.id id input.total_amount t.currency method url input.notes)
