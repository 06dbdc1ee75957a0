-- ===== src/Payments/Confirmations.antt =====
-- The services for incoming money called in any order: deposit-verification.service.ts and
-- virtual-account.service.ts over one database.
use sohcahtoa_api.Prelude.{
  ℕ, ◌≡◌, refl, true, false, Option, none, some, List, [], ◌∷◌, arith, is_some, String,
}
use sohcahtoa_api.Exec.{after, pure}
use sohcahtoa_api.Exec.Keeps.{Keeps, keeps_rules}
use sohcahtoa_api.Store.{Db}
use sohcahtoa_api.Store.Rows.{Transaction, VirtualAccount, Settlement}
use sohcahtoa_api.Store.Writes.{
  transaction_by, settlement_of, update_account, create_account, update_transaction,
}
use sohcahtoa_api.Payments.World.{World}
use sohcahtoa_api.Payments.Deposits.{
  amount_matches, WebhookPayload, handle_deposit_webhook, verify_deposit,
}
use sohcahtoa_api.Payments.Deposits.Manual.{manual_verify_deposit}
use sohcahtoa_api.Payments.Deposits.Amounts.{
  Inv, Inv-empty, is_confirmed, frame-Inv, update_transaction-Inv, create_step_log-Inv,
  from_result-Inv,
}
use sohcahtoa_api.Payments.Deposits.Calls.{verify-Inv, webhook-Inv, manual-Inv}
use sohcahtoa_api.Payments.Accounts.{
  Accounts, CreateVirtualAccountOptions, create_virtual_account, open_for_transaction,
  issue_account, await_deposit, blacklist_account, unblacklist_account, deactivate_expired_accounts,
  update_account_name,
}

-- A call of a method of the two services that writes, with its arguments.
pub data Call : Type 0 where
  webhook : ℕ → WebhookPayload → Call
  verify : ℕ → Call
  verify_manually : ℕ → ℕ → Call
  create_account_for : ℕ → CreateVirtualAccountOptions → Call
  blacklist : ℕ → String → Call
  unblacklist : ℕ → Call
  deactivate : Call
  rename : ℕ → String → Call

-- The database after a call, which may have thrown; `text` prints an account number.
unfoldable pub step : World → Accounts → (ℕ → String) → Call → Db → Db
step w p text (webhook id payload) = after (handle_deposit_webhook w id payload)
step w p text (verify id) = after (verify_deposit w id)
step w p text (verify_manually id session) = after (manual_verify_deposit w text id session)
step w p text (create_account_for id o) = after (create_virtual_account w p id o)
step w p text (blacklist number reason) = after (blacklist_account w p number reason)
step w p text (unblacklist number) = after (unblacklist_account p number)
step w p text deactivate = after (deactivate_expired_accounts w)
step w p text (rename number name) = after (update_account_name p number name)

-- Each call is made in a world of its own: the clock and the other services change.
unfoldable pub run : (ℕ → String) → List (World × Accounts × Call) → Db → Db
unfolding step
run text [] db = db
run text ((w, p, c) ∷ cs) db = run text cs (step w p text c db)

update_account-Inv :
    (number : ℕ) (f : VirtualAccount → VirtualAccount) → Keeps Inv (update_account number f)
unfolding update_account
update_account-Inv number f = frame-Inv _ (λ db. (ground arith, ground arith))

create_account-Inv : (a : VirtualAccount) → Keeps Inv (create_account a)
unfolding create_account
create_account-Inv a = frame-Inv _ (λ db. (ground arith, ground arith))

deactivate-Inv : (w : World) → Keeps Inv (deactivate_expired_accounts w)
unfolding deactivate_expired_accounts
deactivate-Inv w = frame-Inv (deactivate_expired_accounts w) (λ db. (refl, refl))

await-Inv : (id : ℕ) → Keeps Inv (update_transaction id await_deposit)
await-Inv id = update_transaction-Inv id await_deposit (λ t. refl) (λ t. refl) (λ t. refl)

issue-Inv :
    (w : World) (p : Accounts) (id : ℕ) (o : CreateVirtualAccountOptions)
    → Keeps Inv (issue_account w p id o)
unfolding issue_account
issue-Inv w p id o =
    search (keeps_rules, from_result-Inv, create_account-Inv, await-Inv, create_step_log-Inv) depth
      14

open_for-Inv :
    (w : World) (p : Accounts) (id : ℕ) (o : CreateVirtualAccountOptions)
    → Keeps Inv (open_for_transaction w p id o)
unfolding open_for_transaction
open_for-Inv w p id o = search (keeps_rules, issue-Inv) depth 12

or_open-Inv :
    (w : World) (p : Accounts) (id : ℕ) (o : CreateVirtualAccountOptions)
    (a : Option VirtualAccount)
    → Keeps Inv (elim a [ some account ↦ pure account | none ↦ open_for_transaction w p id o ])
or_open-Inv w p id o none = open_for-Inv w p id o
or_open-Inv w p id o (some a) = search keeps_rules

create-Inv :
    (w : World) (p : Accounts) (id : ℕ) (o : CreateVirtualAccountOptions)
    → Keeps Inv (create_virtual_account w p id o)
unfolding create_virtual_account
create-Inv w p id o = search (keeps_rules, or_open-Inv) depth 10

blacklist-Inv :
    (w : World) (p : Accounts) (number : ℕ) (reason : String)
    → Keeps Inv (blacklist_account w p number reason)
unfolding blacklist_account
blacklist-Inv w p number reason = search (keeps_rules, from_result-Inv, update_account-Inv) depth 10

unblacklist-Inv : (p : Accounts) (number : ℕ) → Keeps Inv (unblacklist_account p number)
unfolding unblacklist_account
unblacklist-Inv p number = search (keeps_rules, from_result-Inv, update_account-Inv) depth 10

rename-Inv :
    (p : Accounts) (number : ℕ) (name : String) → Keeps Inv (update_account_name p number name)
unfolding update_account_name
rename-Inv p number name = search (keeps_rules, from_result-Inv, update_account-Inv) depth 10

step-Inv :
    (w : World) (p : Accounts) (text : ℕ → String) (c : Call) (db : Db)
    → Inv db
    → Inv (step w p text c db)
unfolding step
step-Inv w p text (webhook id payload) db h = (webhook-Inv w id payload).at db h
step-Inv w p text (verify id) db h = (verify-Inv w id).at db h
step-Inv w p text (verify_manually id session) db h = (manual-Inv w text id session).at db h
step-Inv w p text (create_account_for id o) db h = (create-Inv w p id o).at db h
step-Inv w p text (blacklist number reason) db h = (blacklist-Inv w p number reason).at db h
step-Inv w p text (unblacklist number) db h = (unblacklist-Inv p number).at db h
step-Inv w p text deactivate db h = (deactivate-Inv w).at db h
step-Inv w p text (rename number name) db h = (rename-Inv p number name).at db h

run-Inv :
    (text : ℕ → String) (cs : List (World × Accounts × Call)) (db : Db)
    → Inv db
    → Inv (run text cs db)
unfolding run
run-Inv text [] db h = h
run-Inv text ((w, p, c) ∷ cs) db h = run-Inv text cs (step w p text c db) (step-Inv w p text c db h)

module _ (text : ℕ → String) (cs : List (World × Accounts × Call)) (db : Db)
    (unsettled : db.settlements ≡ [])
    (unconfirmed : (t : ℕ) (tx : Transaction)
      → transaction_by t db ≡ some tx
      → is_confirmed tx.status ≡ false) where
  reached : Inv (run text cs db)
  reached = run-Inv text cs db (Inv-empty db unsettled unconfirmed)

  -- Whatever methods of the two services are called, in whatever worlds, from a database without
  -- settlements and without confirmed transactions: every settlement belongs to a transaction that
  -- exists, and has that transaction's naira amount if it has one.
  pub settlements_match :
      (t : ℕ) (s : Settlement)
      → settlement_of t (run text cs db) ≡ some s
      → (tx : Transaction) × (transaction_by t (run text cs db) ≡ some tx)
        × (amount_matches tx.naira_equivalent s.amount ≡ true)
  settlements_match t s found = reached.amounts t s found

  -- Whatever methods of the two services are called, in whatever worlds, from a database without
  -- settlements and without confirmed transactions: a transaction that is DEPOSIT_CONFIRMED has a
  -- settlement.
  pub confirmed_has_settlement :
      (t : ℕ) (tx : Transaction)
      → transaction_by t (run text cs db) ≡ some tx
      → is_confirmed tx.status ≡ true
      → is_some (settlement_of t (run text cs db)) ≡ true
  confirmed_has_settlement t tx found c = reached.confirmed t tx found c
