-- ===== src/Tests/Branch.antt =====
-- An agent who pays out on concrete tables.
use sohcahtoa_api.Prelude.{
  String, ◌⊎◌, ◌++◌, true, Text, none, some, [], ◌∷◌, ◌≡◌, refl, arith, text_eq,
}
use sohcahtoa_api.Errors.{Error, ok, err, invalid}
use sohcahtoa_api.Exec.{result, after}
use sohcahtoa_api.Table.{find_unique}
use sohcahtoa_api.Store.Rows.{TransactionStatus, TransactionStep, SettlementStatus}
use sohcahtoa_api.Cbn.Rules.{TransactionType, DisbursementMethod}
use sohcahtoa_api.Customer.Rows.{Transaction, CustomerDb, File}
use sohcahtoa_api.Agents.Rows.{AgentProfile, Payout, AgentDb, DisbursementInput, AgentWorld}
use sohcahtoa_api.Agents.Transactions.{resolve_agent, record_disbursement, created_by, payout_of}
use sohcahtoa_api.Agents.Failures.{failed_disbursement}
use sohcahtoa_api.Agents.Disbursement.{disbursement_lem}

abbrev ada_email : Text
ada_email = 97 ∷ 64 ∷ 98 ∷ []

abbrev ada : AgentProfile
ada = record { id = 4; email = ada_email }

abbrev sale : TransactionStatus → Transaction
sale status = record {
  id = 41;
  user_id = 7;
  created_by_agent_id = some 4;
  reference_number = 900;
  type = TransactionType.pta;
  mode = none;
  status = status;
  current_step = TransactionStep.admin_review;
  currency = 85 ∷ 83 ∷ 68 ∷ [];
  foreign_amount = some 100000;
  naira_equivalent = none;
  exchange_rate = none;
  disbursement_method = none;
}

abbrev sales : TransactionStatus → CustomerDb
sales status = record {
  users = [];
  kycs = [];
  transactions = sale status ∷ [];
  steps = [];
  documents = [];
  pickups = [];
  rates = [];
  branches = [];
}

abbrev branch : TransactionStatus → AgentDb
branch status = record {
  users = record { id = 8; email = ada_email; is_agent = true } ∷ [];
  agents = ada ∷ [];
  customer = sales status;
  payouts = [];
  history = [];
  files = [];
}

abbrev receipt : File
receipt = record { name = "receipt.pdf"; size = 9 }

abbrev stand : AgentWorld
stand = record { fresh_id = 60; reference_number = 61; upload_file = λ f. ok "https://files" }

abbrev payment : DisbursementInput
payment = record {
  transaction_id = some 41;
  disbursement_method = some DisbursementMethod.bank_transfer;
  total_amount = 5;
  receipt_file = some receipt;
  notes = none;
}

abbrev too_early : Error
too_early = invalid "Disbursement can only be recorded for APPROVED transactions"

refused :
    result (record_disbursement stand 8 payment) (branch TransactionStatus.draft) ≡ err too_early
unfolding record_disbursement resolve_agent find_unique text_eq
refused = refl

failed_disbursement_example :
    let left = after (record_disbursement stand 8 payment) (branch TransactionStatus.draft) in
    (left ≡ branch TransactionStatus.draft)
    ⊎ ((url : String) × (left ≡ record (branch TransactionStatus.draft) { files = [] ++ url ∷ [] }))
failed_disbursement_example =
    failed_disbursement stand 8 payment (branch TransactionStatus.draft) too_early refused

known_agent : result (resolve_agent 8) (branch TransactionStatus.approved) ≡ ok ada
unfolding resolve_agent find_unique text_eq
known_agent = refl

disbursement_lem_example :
    let call = record_disbursement stand 8 payment in
    let db = branch TransactionStatus.approved in
    ((p : Payout) × (result call db ≡ ok p)
      × (payout_of 41 (after call db) ≡ some p)
      × (p.status ≡ SettlementStatus.completed)
      × (p.amount ≡ 5)
      × (p.currency ≡ 85 ∷ 83 ∷ 68 ∷ [])
      × (p.payment_proof ≡ some "https://files")
      × (p.initiated_by ≡ 4)
      × (p.approved_by ≡ none))
    × (created_by 41 4 (after call db)
        ≡ some (record (sale TransactionStatus.approved) {
          disbursement_method = some DisbursementMethod.bank_transfer;
          status = TransactionStatus.disbursement_in_progress;
          current_step = TransactionStep.disbursement;
        }))
disbursement_lem_example =
    disbursement_lem stand 8 41 payment DisbursementMethod.bank_transfer receipt "https://files" ada
      (sale TransactionStatus.approved) (branch TransactionStatus.approved) refl refl (omega arith)
      refl known_agent refl refl refl refl refl
