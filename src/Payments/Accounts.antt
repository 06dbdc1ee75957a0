-- ===== src/Payments/Accounts.antt =====
-- src/modules/payments/services/virtual-account.service.ts. The answers of Providus come with the
-- `Accounts` argument; ids of new records are arguments.
pub mod Guards
use sohcahtoa_api.Prelude.{
  ℕ, ◌+◌, ◌*◌, String, Bool, true, false, not, ◌&&◌, Option, none, some, leb, if◌then◌else◌, length,
  filter, find,
}
use sohcahtoa_api.Errors.{
  Error, Result, ok, err, app, not_found, validation_error, internal_error, wrap,
}
use sohcahtoa_api.Exec.{Exec, pure, raise, gets, ◌>>=◌, ◌>>◌, try_catch, or_raise, raise_if}
use sohcahtoa_api.Table.{modify_where}
use sohcahtoa_api.Store.{Db}
use sohcahtoa_api.Store.Rows.{
  Transaction, TransactionStatus, TransactionStep, VirtualAccount, VirtualAccountType,
  VirtualAccountStatus, StepLog, StepStatus,
}
use sohcahtoa_api.Store.Writes.{
  transaction_by, account_by_number, update_transaction, update_account, create_account,
  create_step_log, clash,
}
use sohcahtoa_api.Payments.World.{World}
use sohcahtoa_api.Payments.Deposits.{transaction_not_found, account_not_found, from_result}

-- What providusService answers: the account number and name of a new account, and whether
-- a change of an account is accepted.
pub record Accounts : Type 0 where
  pub create_dynamic : String → Result (ℕ × String)
  pub create_reserved : String → Option String → Result (ℕ × String)
  pub set_blacklisted : ℕ → Bool → Result (Unit {0})
  pub set_name : ℕ → String → Result (Unit {0})

pub record CreateVirtualAccountOptions : Type 0 where
  pub user_id : Option ℕ
  pub transaction_id : ℕ
  pub account_name : String
  pub type : VirtualAccountType
  pub bvn : Option String
  pub expires_in_hours : ℕ

-- findUnique({ where: { transactionId } })
abbrev pub account_of : ℕ → Db → Option VirtualAccount
account_of transaction_id db =
    find (λ a. clash a.transaction_id (some transaction_id)) db.virtual_accounts

abbrev pub is_approved : TransactionStatus → Bool
is_approved TransactionStatus.approved = true
is_approved _ = false

abbrev pub not_approved : Error
not_approved =
    app validation_error "Virtual account can only be created for approved transactions" 400

unfoldable pub open_account : Accounts → CreateVirtualAccountOptions → Result (ℕ × String)
open_account p o = elim o.type [
  | VirtualAccountType.dynamic ↦ p.create_dynamic o.account_name
  | VirtualAccountType.reserved ↦ p.create_reserved o.account_name o.bvn
]

-- in milliseconds
unfoldable pub expiry : World → CreateVirtualAccountOptions → Option ℕ
expiry w o = elim o.type [
  | VirtualAccountType.dynamic ↦ some (w.now + o.expires_in_hours * 60 * 60 * 1000)
  | VirtualAccountType.reserved ↦ none
]

abbrev pub new_account : World → ℕ → CreateVirtualAccountOptions → ℕ × String → VirtualAccount
new_account w id o answer = record {
  id = id;
  user_id = o.user_id;
  transaction_id = some o.transaction_id;
  account_number = answer.0;
  account_name = answer.1;
  type = o.type;
  status = VirtualAccountStatus.active;
  is_blacklisted = false;
  blacklisted_at = none;
  blacklist_reason = none;
  expires_at = expiry w o;
}

abbrev pub await_deposit : Transaction → Transaction
await_deposit t = record t {
  status = TransactionStatus.awaiting_deposit;
  current_step = TransactionStep.deposit_info;
}

abbrev pub account_step : World → ℕ → StepLog
account_step w transaction_id = record {
  transaction_id = transaction_id;
  step = TransactionStep.deposit_info;
  status = StepStatus.completed;
  completed_at = some w.now;
}

-- the rest of the method, past its guards
unfoldable pub issue_account :
    World → Accounts → ℕ → CreateVirtualAccountOptions → Exec Db VirtualAccount
issue_account w p id o = do
  answer ← from_result (open_account p o)
  account ← create_account (new_account w id o answer)
  update_transaction o.transaction_id await_deposit
  create_step_log (account_step w o.transaction_id)
  pure account

-- the rest of the method, when the transaction has no account yet
unfoldable pub open_for_transaction :
    World → Accounts → ℕ → CreateVirtualAccountOptions → Exec Db VirtualAccount
open_for_transaction w p id o = do
  found ← gets (transaction_by o.transaction_id)
  t ← or_raise found transaction_not_found
  raise_if (not (is_approved t.status)) not_approved
  issue_account w p id o

unfoldable pub create_virtual_account :
    World → Accounts → ℕ → CreateVirtualAccountOptions → Exec Db VirtualAccount
create_virtual_account w p id o =
    try_catch
      (do
        existing ← gets (account_of o.transaction_id)
        elim existing [ some account ↦ pure account | none ↦ open_for_transaction w p id o ])
      (λ e. raise (wrap "Failed to create virtual account" e))

-- findUnique({ where: { accountNumber } })
unfoldable pub get_account_by_number : ℕ → Exec Db VirtualAccount
get_account_by_number number =
    try_catch (do found ← gets (account_by_number number); or_raise found account_not_found)
      (λ e. raise (wrap "Failed to fetch virtual account" e))

unfoldable pub get_account_by_transaction : ℕ → Exec Db VirtualAccount
get_account_by_transaction transaction_id =
    try_catch (do found ← gets (account_of transaction_id); or_raise found account_not_found)
      (λ e. raise (wrap "Failed to fetch virtual account" e))

abbrev pub mark_blacklisted : World → String → VirtualAccount → VirtualAccount
mark_blacklisted w reason a = record a {
  is_blacklisted = true;
  status = VirtualAccountStatus.blacklisted;
  blacklisted_at = some w.now;
  blacklist_reason = some reason;
}

unfoldable pub blacklist_account : World → Accounts → ℕ → String → Exec Db VirtualAccount
blacklist_account w p number reason =
    try_catch
      (do
        from_result (p.set_blacklisted number true)
        update_account number (mark_blacklisted w reason))
      (λ e. raise (wrap "Failed to blacklist virtual account" e))

abbrev pub mark_unblacklisted : VirtualAccount → VirtualAccount
mark_unblacklisted a = record a {
  is_blacklisted = false;
  status = VirtualAccountStatus.active;
  blacklisted_at = none;
  blacklist_reason = none;
}

unfoldable pub unblacklist_account : Accounts → ℕ → Exec Db VirtualAccount
unblacklist_account p number =
    try_catch
      (do from_result (p.set_blacklisted number false); update_account number mark_unblacklisted)
      (λ e. raise (wrap "Failed to unblacklist virtual account" e))

abbrev pub is_dynamic : VirtualAccountType → Bool
is_dynamic VirtualAccountType.dynamic = true
is_dynamic VirtualAccountType.reserved = false

abbrev pub is_active : VirtualAccountStatus → Bool
is_active VirtualAccountStatus.active = true
is_active _ = false

-- expiresAt: { lte: now }, which null never satisfies
abbrev pub expired_by : ℕ → Option ℕ → Bool
expired_by now none = false
expired_by now (some t) = leb t now

abbrev pub is_expired : World → VirtualAccount → Bool
is_expired w a = is_dynamic a.type && (is_active a.status && expired_by w.now a.expires_at)

abbrev pub deactivated : VirtualAccount → VirtualAccount
deactivated a = record a { status = VirtualAccountStatus.inactive }

unfoldable pub deactivate_expired_accounts : World → Exec Db ℕ
deactivate_expired_accounts w db = (
  ok (length (filter (λ a. is_expired w a) db.virtual_accounts)),
  record db {
    virtual_accounts = modify_where (λ a. is_expired w a) deactivated db.virtual_accounts;
  },
)

unfoldable pub update_account_name : Accounts → ℕ → String → Exec Db VirtualAccount
update_account_name p number name =
    try_catch
      (do
        from_result (p.set_name number name)
        update_account number (λ a. record a { account_name = name }))
      (λ e. raise (wrap "Failed to update virtual account name" e))
