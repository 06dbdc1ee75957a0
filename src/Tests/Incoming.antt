-- ===== src/Tests/Incoming.antt =====
-- Deposits and virtual accounts on the small database.
use sohcahtoa_api.Prelude.{
  ℕ, String, ◌≡◌, refl, true, false, none, some, [], ◌∷◌, is_some, List, Option, if◌then◌else◌,
  arith,
}
use sohcahtoa_api.Errors.{ok}
use sohcahtoa_api.Exec.{result, after}
use sohcahtoa_api.Table.{find_unique, modify_where, modify_unique}
use sohcahtoa_api.Store.{Db}
use sohcahtoa_api.Store.Rows.{
  Transaction, TransactionStatus, Deposit, DepositStatus, Settlement, VirtualAccountType,
}
use sohcahtoa_api.Store.Writes.{
  transaction_by, settlement_of, deposit_by, account_by_number, create_deposit, update_deposit,
  update_transaction, create_settlement,
}
use sohcahtoa_api.Payments.World.{World, send_notification, verify_by_session}
use sohcahtoa_api.Payments.Deposits.{
  WebhookPayload, new_deposit, handle_deposit_webhook, record_deposit, verify_deposit,
  check_deposit, confirm_if_linked, confirm_transaction_deposit, settle_deposit, post_settlement,
  amount_matches, amount_mismatch_to, settlement_for, set_status, set_transaction,
}
use sohcahtoa_api.Payments.Deposits.Amounts.{is_confirmed}
use sohcahtoa_api.Payments.Deposits.Repeats.{webhook_once}
use sohcahtoa_api.Payments.Deposits.Outcomes.{confirm_settles, confirm_flags}
use sohcahtoa_api.Payments.Accounts.{Accounts, CreateVirtualAccountOptions}
use sohcahtoa_api.Payments.Confirmations.{
  Call, webhook, run, step, settlements_match, confirmed_has_settlement,
}
use sohcahtoa_api.Tests.Data.{world, customer, transaction, account}

abbrev payload : WebhookPayload
payload = record {
  session_id = 501;
  account_number = 9900;
  tran_remarks = none;
  transaction_amount = 5000000;
  settled_amount = 5000000;
  fee_amount = none;
  vat_amount = none;
  currency = none;
  settlement_id = none;
  source_account_number = none;
  source_account_name = none;
  source_bank_name = none;
  channel_id = none;
  tran_date_time = none;
}

abbrev accounts : Accounts
accounts = record {
  create_dynamic = λ name. ok (9901, name);
  create_reserved = λ name bvn. ok (9902, name);
  set_blacklisted = λ number b. ok tt;
  set_name = λ number name. ok tt;
}

abbrev text : ℕ → String
text n = "9900"

abbrev calls : List (World × Accounts × Call)
calls = (world, accounts, webhook 21 payload) ∷ []

abbrev received : Deposit
received = new_deposit world 21 payload account

abbrev paid : Settlement
paid = settlement_for world 70 received

settled_run : settlement_of 70 (run text calls customer) ≡ some paid
unfolding run step find_unique handle_deposit_webhook record_deposit verify_deposit check_deposit
    create_deposit update_deposit modify_unique modify_where verify_by_session confirm_if_linked
    confirm_transaction_deposit amount_matches settle_deposit post_settlement update_transaction
    create_settlement send_notification
settled_run = refl

abbrev confirmed_transaction : Transaction
confirmed_transaction = set_transaction TransactionStatus.deposit_confirmed transaction

confirmed_run : transaction_by 70 (run text calls customer) ≡ some confirmed_transaction
unfolding run step find_unique handle_deposit_webhook record_deposit verify_deposit check_deposit
    create_deposit update_deposit modify_unique modify_where verify_by_session confirm_if_linked
    confirm_transaction_deposit amount_matches settle_deposit post_settlement update_transaction
    create_settlement send_notification
confirmed_run = refl

unconfirmed :
    (t : ℕ) (tx : Transaction)
    → transaction_by t customer ≡ some tx
    → is_confirmed tx.status ≡ false
unfolding find_unique
unconfirmed t tx found = ground arith

settlements_match_example :
    (tx : Transaction) × (transaction_by 70 (run text calls customer) ≡ some tx)
    × (amount_matches tx.naira_equivalent paid.amount ≡ true)
settlements_match_example =
    settlements_match text calls customer refl unconfirmed 70 paid settled_run

confirmed_has_settlement_example : is_some (settlement_of 70 (run text calls customer)) ≡ true
confirmed_has_settlement_example =
    confirmed_has_settlement text calls customer refl unconfirmed 70 confirmed_transaction
      confirmed_run refl

abbrev first_webhook : Db
first_webhook = after (handle_deposit_webhook world 21 payload) customer

answered :
    result (handle_deposit_webhook world 21 payload) customer
    ≡ ok (new_deposit world 21 payload account)
unfolding find_unique handle_deposit_webhook record_deposit verify_deposit check_deposit
    create_deposit update_deposit modify_unique modify_where verify_by_session confirm_if_linked
    confirm_transaction_deposit amount_matches settle_deposit post_settlement update_transaction
    create_settlement send_notification
answered = refl

account_left : account_by_number 9900 first_webhook ≡ some account
unfolding find_unique handle_deposit_webhook record_deposit verify_deposit check_deposit
    create_deposit update_deposit modify_unique modify_where verify_by_session confirm_if_linked
    confirm_transaction_deposit amount_matches settle_deposit post_settlement update_transaction
    create_settlement send_notification
account_left = refl

webhook_once_example :
    (d : Deposit) × (handle_deposit_webhook world 22 payload first_webhook ≡ (ok d, first_webhook))
    × (d.session_id ≡ 501)
webhook_once_example =
    webhook_once world world 21 22 payload payload customer (new_deposit world 21 payload account)
      account answered refl account_left refl

abbrev with_deposit : Db
with_deposit = record customer { deposits = received ∷ [] }

found_deposit : deposit_by 21 with_deposit ≡ some received
unfolding find_unique
found_deposit = refl

found_transaction : transaction_by 70 with_deposit ≡ some transaction
unfolding find_unique
found_transaction = refl

amounts_agree : amount_matches transaction.naira_equivalent received.settled_amount ≡ true
unfolding amount_matches
amounts_agree = refl

no_settlement : settlement_of 70 with_deposit ≡ none
unfolding find_unique
no_settlement = refl

confirm_settles_example :
    (db' : Db) × (confirm_transaction_deposit world 70 21 with_deposit ≡ (ok tt, db'))
    × (deposit_by 21 db' ≡ some (set_status DepositStatus.settled received))
    × (transaction_by 70 db' ≡ some confirmed_transaction)
    × (settlement_of 70 db' ≡ some paid)
confirm_settles_example =
    confirm_settles world 70 21 with_deposit received transaction found_deposit found_transaction
      amounts_agree no_settlement refl refl

abbrev too_little : Deposit
too_little = record received { settled_amount = 4000000 }

abbrev with_too_little : Db
with_too_little = record customer { deposits = too_little ∷ [] }

found_too_little : deposit_by 21 with_too_little ≡ some too_little
unfolding find_unique
found_too_little = refl

found_again : transaction_by 70 with_too_little ≡ some transaction
unfolding find_unique
found_again = refl

amounts_differ : amount_matches transaction.naira_equivalent too_little.settled_amount ≡ false
unfolding amount_matches
amounts_differ = refl

confirm_flags_example :
    ((confirm_transaction_deposit world 70 21 with_too_little).1.deposits
      ≡ with_too_little.deposits)
    × ((confirm_transaction_deposit world 70 21 with_too_little).1.settlements
        ≡ with_too_little.settlements)
    × (transaction_by 70 (confirm_transaction_deposit world 70 21 with_too_little).1
        ≡ some (
            if world.notify_fails (amount_mismatch_to transaction 70)
            then transaction
            else set_transaction TransactionStatus.deposit_pending transaction))
confirm_flags_example =
    confirm_flags world 70 21 with_too_little too_little transaction found_too_little found_again
      amounts_differ

abbrev options : CreateVirtualAccountOptions
options = record {
  user_id = some 8;
  transaction_id = 70;
  account_name = "Ada";
  type = VirtualAccountType.dynamic;
  bvn = none;
  expires_in_hours = 48;
}

abbrev status_after : Option Deposit → Option DepositStatus
status_after none = none
status_after (some d) = some d.status

-- A deposit that is SETTLED and is verified again ends FAILED: its transaction has its settlement.
verified_again :
    status_after (deposit_by 21 (verify_deposit world 21 (run text calls customer)).1)
    ≡ some DepositStatus.failed
unfolding run step find_unique handle_deposit_webhook record_deposit verify_deposit check_deposit
    create_deposit update_deposit modify_unique modify_where verify_by_session confirm_if_linked
    confirm_transaction_deposit amount_matches settle_deposit post_settlement update_transaction
    create_settlement send_notification
verified_again = refl
