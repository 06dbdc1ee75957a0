-- ===== src/Payments/Accounts/Guards.antt =====
-- The guards on virtual accounts: when one is opened, and that a blacklisted one takes no deposit.
use sohcahtoa_api.Prelude.{ℕ, ◌≡◌, none, some, if◌then◌else◌, Option-cases, Bool-cases, inl, inr}
use sohcahtoa_api.Errors.{ok, err, wrap}
use sohcahtoa_api.Exec.{try_catch, raise}
use sohcahtoa_api.Store.{Db}
use sohcahtoa_api.Store.Writes.{transaction_by}
use sohcahtoa_api.Payments.World.{World}
use sohcahtoa_api.Payments.Deposits.{transaction_not_found}
use sohcahtoa_api.Payments.Accounts.{
  Accounts, CreateVirtualAccountOptions, create_virtual_account, open_for_transaction,
  issue_account, account_of, is_approved, not_approved,
}

-- createVirtualAccount, on its guards: a transaction that has an account gets that account; one that
-- does not exist is answered with 404, and one that is not APPROVED with 400. None of these
-- writes; only an APPROVED transaction without an account goes on to open one.
pub create_lem :
    (w : World) (p : Accounts) (id : ℕ) (o : CreateVirtualAccountOptions) (db : Db)
    → create_virtual_account w p id o db ≡ elim (account_of o.transaction_id db) [
      | some a ↦ (ok a, db)
      | none ↦ elim (transaction_by o.transaction_id db) [
        | none ↦ (err transaction_not_found, db)
        | some t ↦
            if is_approved t.status
            then try_catch
                (issue_account w p id o)
                (λ e. raise (wrap "Failed to create virtual account" e))
                db
            else (err not_approved, db)
      ]
    ]
unfolding create_virtual_account open_for_transaction
create_lem w p id o db = elim (Option-cases (account_of o.transaction_id db)) [
  | inr (a, has) ↦ rw has
  | inl lacks ↦ elim (Option-cases (transaction_by o.transaction_id db)) [
    | inl missing ↦ rw lacks (rw missing)
    | inr (t, there) ↦ elim (Bool-cases (is_approved t.status)) [
      | inl yes_t ↦ rw lacks (rw there (rw yes_t))
      | inr no_t ↦ rw lacks (rw there (rw no_t))
    ]
  ]
]
