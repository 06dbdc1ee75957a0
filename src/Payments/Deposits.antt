-- ===== src/Payments/Deposits.antt =====
-- src/modules/payments/services/deposit-verification.service.ts. Ids of new records are arguments;
-- JSON columns, notification bodies and log lines are left out.
pub mod Manual
pub mod Webhook
pub mod Amounts
pub mod Posting
pub mod Calls
pub mod Outcomes
pub mod Recorded
pub mod Repeats
use text.Mathlib.Text.{◌==◌ as str_eq}
use sohcahtoa_api.Prelude.{
  ℕ, String, Bool, true, false, Option, none, some, ◌==◌, or_option, if◌then◌else◌,
}
use sohcahtoa_api.Errors.{
  Error, Result, app, not_found_error, forbidden_error, wrap, forbidden, not_found,
}
use sohcahtoa_api.Exec.{Exec, pure, raise, gets, ◌>>=◌, ◌>>◌, try_catch, or_raise, raise_if}
use sohcahtoa_api.Store.{Db}
use sohcahtoa_api.Store.Rows.{
  Transaction, TransactionStatus, TransactionStep, VirtualAccount, Deposit, DepositStatus,
  Settlement, PaymentStatus, StepLog, StepStatus, Notification,
}
use sohcahtoa_api.Store.Writes.{
  transaction_by, account_by_number, deposit_by, deposit_by_session, update_transaction,
  update_deposit, create_deposit, create_settlement, create_step_log,
}
use sohcahtoa_api.Payments.World.{World, Verification, verify_by_session, send_notification}

-- the fields of the webhook that are read; an optional field is none if it is absent, and the fee,
-- the tax, the currency and the date also if they are 0 or empty. The settlement id 0 is the empty
-- text.
pub record WebhookPayload : Type 0 where
  pub session_id : ℕ
  pub account_number : ℕ
  pub tran_remarks : Option String
  pub transaction_amount : ℕ
  pub settled_amount : ℕ
  pub fee_amount : Option ℕ
  pub vat_amount : Option ℕ
  pub currency : Option String
  pub settlement_id : Option ℕ
  pub source_account_number : Option String
  pub source_account_name : Option String
  pub source_bank_name : Option String
  pub channel_id : Option String
  pub tran_date_time : Option ℕ

-- value || fallback
abbrev pub or_else : {A : Type 0} → Option A → A → A
or_else none fallback = fallback
or_else (some a) fallback = a

abbrev pub deposit_not_found : Error
deposit_not_found = app not_found "Deposit not found" 404

abbrev pub account_not_found : Error
account_not_found = app not_found "Virtual account not found" 404

abbrev pub account_blacklisted : Error
account_blacklisted = app forbidden "Account is blacklisted" 403

abbrev pub transaction_not_found : Error
transaction_not_found = app not_found "Transaction not found" 404

-- !(expectedAmount && receivedAmount.toString() !== expectedAmount.toString())
unfoldable pub amount_matches : Option ℕ → ℕ → Bool
amount_matches none received = true
amount_matches (some expected) received = received == expected

abbrev pub set_status : DepositStatus → Deposit → Deposit
set_status st d = record d { status = st }

abbrev pub set_transaction : TransactionStatus → Transaction → Transaction
set_transaction st t = record t { status = st; current_step = TransactionStep.deposit_confirmation }

abbrev pub amount_mismatch_to : Transaction → ℕ → Notification
amount_mismatch_to t transaction_id = record {
  user_id = t.user_id;
  title = "Deposit Amount Mismatch";
  transaction_id = transaction_id;
}

-- the branch of an amount mismatch
unfoldable pub flag_mismatch : World → ℕ → Transaction → Exec Db (Unit {0})
flag_mismatch w transaction_id t = do
  send_notification w (amount_mismatch_to t transaction_id)
  update_transaction transaction_id (set_transaction TransactionStatus.deposit_pending)
  pure tt

abbrev pub settlement_for : World → ℕ → Deposit → Settlement
settlement_for w transaction_id d = record {
  transaction_id = transaction_id;
  amount = d.settled_amount;
  currency = d.currency;
  status = PaymentStatus.confirmed;
  payment_method = "BANK_TRANSFER";
  payment_reference = some d.session_id;
  deposited_at = some (or_else d.tran_date_time w.now);
  confirmed_at = some w.now;
  confirmed_by = some "SYSTEM";
}

abbrev pub deposit_step : World → ℕ → StepLog
deposit_step w transaction_id = record {
  transaction_id = transaction_id;
  step = TransactionStep.deposit_confirmation;
  status = StepStatus.completed;
  completed_at = some w.now;
}

abbrev pub deposit_confirmed_to : Transaction → ℕ → Notification
deposit_confirmed_to t transaction_id = record {
  user_id = t.user_id;
  title = "Deposit Confirmed";
  transaction_id = transaction_id;
}

-- the last four steps of the branch of an amount that matches
unfoldable pub post_settlement : World → ℕ → Deposit → Transaction → Exec Db (Unit {0})
post_settlement w transaction_id d t = do
  update_transaction transaction_id (set_transaction TransactionStatus.deposit_confirmed)
  create_settlement (settlement_for w transaction_id d)
  create_step_log (deposit_step w transaction_id)
  send_notification w (deposit_confirmed_to t transaction_id)

-- the branch of an amount that matches
unfoldable pub settle_deposit : World → ℕ → ℕ → Deposit → Transaction → Exec Db (Unit {0})
settle_deposit w transaction_id deposit_id d t = do
  update_deposit deposit_id (set_status DepositStatus.settled)
  post_settlement w transaction_id d t

unfoldable pub confirm_transaction_deposit : World → ℕ → ℕ → Exec Db (Unit {0})
unfolding amount_matches
confirm_transaction_deposit w transaction_id deposit_id =
    try_catch
      (do
        found ← gets (deposit_by deposit_id)
        d ← or_raise found deposit_not_found
        there ← gets (transaction_by transaction_id)
        t ← or_raise there transaction_not_found
        if amount_matches t.naira_equivalent d.settled_amount
            then settle_deposit w transaction_id deposit_id d t
            else flag_mismatch w transaction_id t)
      (λ e. raise e)

-- if (deposit.transactionId)
unfoldable pub confirm_if_linked : World → Option ℕ → ℕ → Exec Db (Unit {0})
confirm_if_linked w none deposit_id = pure tt
confirm_if_linked w (some t) deposit_id = confirm_transaction_deposit w t deposit_id

-- the left side of `||`: an empty text counts as none
abbrev pub non_zero : Option ℕ → Option ℕ
non_zero none = none
non_zero (some n) = if n == 0 then none else some n

abbrev pub non_empty : Option String → Option String
non_empty none = none
non_empty (some s) = if str_eq s "" then none else some s

-- the columns that verification fills, from the row as it was read
abbrev pub mark_verified : World → Verification → Deposit → Deposit → Deposit
mark_verified w v read d = record d {
  status = DepositStatus.verified;
  settlement_id = or_option (non_zero v.settlement_id) read.settlement_id;
  source_account_number = or_option (non_empty v.source_account_number) read.source_account_number;
  source_account_name = or_option (non_empty v.source_account_name) read.source_account_name;
  source_bank_name = or_option (non_empty v.source_bank_name) read.source_bank_name;
  verified_at = some w.now;
}

abbrev pub from_result : {A : Type 0} → Result A → Exec Db A
from_result r db = (r, db)

-- the body of the try block of verifyDeposit
unfoldable pub check_deposit : World → ℕ → Exec Db Deposit
check_deposit w deposit_id = do
  found ← gets (deposit_by deposit_id)
  d ← or_raise found deposit_not_found
  v ← from_result (verify_by_session w d.session_id)
  updated ← update_deposit deposit_id (mark_verified w v d)
  confirm_if_linked w d.transaction_id deposit_id
  pure updated

unfoldable pub verify_deposit : World → ℕ → Exec Db Deposit
verify_deposit w deposit_id = try_catch (check_deposit w deposit_id) (λ e. do
  update_deposit deposit_id (set_status DepositStatus.failed)
  raise (wrap "Failed to verify deposit" e))

abbrev pub new_deposit : World → ℕ → WebhookPayload → VirtualAccount → Deposit
new_deposit w id p a = record {
  id = id;
  virtual_account_id = a.id;
  transaction_id = a.transaction_id;
  session_id = p.session_id;
  settlement_id = p.settlement_id;
  account_number = p.account_number;
  amount = p.transaction_amount;
  settled_amount = p.settled_amount;
  fee_amount = or_else p.fee_amount 0;
  vat_amount = or_else p.vat_amount 0;
  currency = or_else p.currency "NGN";
  source_account_number = p.source_account_number;
  source_account_name = p.source_account_name;
  source_bank_name = p.source_bank_name;
  channel_id = p.channel_id;
  tran_remarks = p.tran_remarks;
  tran_date_time = p.tran_date_time;
  status = DepositStatus.pending;
  verified_at = none;
  webhook_received_at = some w.now;
}

-- the rest of the webhook's handler, after the check for an existing deposit
unfoldable pub record_deposit : World → ℕ → WebhookPayload → VirtualAccount → Exec Db Deposit
record_deposit w id p a = do
  deposit ← create_deposit (new_deposit w id p a)
  verify_deposit w deposit.id
  pure deposit

unfoldable pub handle_deposit_webhook : World → ℕ → WebhookPayload → Exec Db Deposit
handle_deposit_webhook w id p =
    try_catch
      (do
        found ← gets (account_by_number p.account_number)
        a ← or_raise found account_not_found
        raise_if a.is_blacklisted account_blacklisted
        existing ← gets (deposit_by_session p.session_id)
        elim existing [ some deposit ↦ pure deposit | none ↦ record_deposit w id p a ])
      (λ e. raise (wrap "Failed to process deposit webhook" e))
