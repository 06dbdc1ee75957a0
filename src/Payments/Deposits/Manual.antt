-- ===== src/Payments/Deposits/Manual.antt =====
-- manualVerifyDeposit of src/modules/payments/services/deposit-verification.service.ts.
use Prim.Native.String.{◌++◌ as ◌+++◌}
use sohcahtoa_api.Prelude.{ℕ, String, none, some}
use sohcahtoa_api.Errors.{Error, app, not_found, wrap}
use sohcahtoa_api.Exec.{Exec, pure, raise, gets, ◌>>=◌, ◌>>◌, try_catch, or_raise}
use sohcahtoa_api.Store.{Db}
use sohcahtoa_api.Store.Rows.{VirtualAccount, Deposit, DepositStatus}
use sohcahtoa_api.Store.Writes.{account_by_number, deposit_by_session, create_deposit}
use sohcahtoa_api.Payments.World.{World, Verification, verify_by_session}
use sohcahtoa_api.Payments.Deposits.{verify_deposit, confirm_if_linked, from_result}

-- `text` prints an account number.
abbrev pub no_account_for : (ℕ → String) → ℕ → Error
no_account_for text number = app not_found ("Virtual account not found: " +++ text number) 404

abbrev pub verified_deposit : World → ℕ → Verification → VirtualAccount → Deposit
verified_deposit w id v a = record {
  id = id;
  virtual_account_id = a.id;
  transaction_id = a.transaction_id;
  session_id = v.session_id;
  settlement_id = v.settlement_id;
  account_number = v.account_number;
  amount = v.transaction_amount;
  settled_amount = v.settled_amount;
  fee_amount = v.fee_amount;
  vat_amount = v.vat_amount;
  currency = v.currency;
  source_account_number = v.source_account_number;
  source_account_name = v.source_account_name;
  source_bank_name = v.source_bank_name;
  channel_id = v.channel_id;
  tran_remarks = some v.tran_remarks;
  tran_date_time = some v.tran_date_time;
  status = DepositStatus.verified;
  verified_at = some w.now;
  webhook_received_at = none;
}

-- the rest of the method, when no deposit has the session id
unfoldable pub import_deposit : World → (ℕ → String) → ℕ → ℕ → Exec Db Deposit
import_deposit w text id session_id = do
  v ← from_result (verify_by_session w session_id)
  found ← gets (account_by_number v.account_number)
  a ← or_raise found (no_account_for text v.account_number)
  deposit ← create_deposit (verified_deposit w id v a)
  confirm_if_linked w deposit.transaction_id deposit.id
  pure deposit

unfoldable pub manual_verify_deposit : World → (ℕ → String) → ℕ → ℕ → Exec Db Deposit
manual_verify_deposit w text id session_id =
    try_catch
      (do
        existing ← gets (deposit_by_session session_id)
        elim existing [
          | some deposit ↦ verify_deposit w deposit.id
          | none ↦ import_deposit w text id session_id
        ])
      (λ e. raise (wrap "Failed to manually verify deposit" e))
