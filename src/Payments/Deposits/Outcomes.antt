-- ===== src/Payments/Deposits/Outcomes.antt =====
-- What the confirmation of a deposit leaves in the database.
use sohcahtoa_api.Prelude.{
  ℕ, ◌≡◌, refl, ◌∙◌, true, false, not, ◌&&◌, none, some, [], ◌∷◌, ◌++◌, ◌==◌, any, ==_refl,
  Bool-cases, inl, inr, if◌then◌else◌,
}
use sohcahtoa_api.Errors.{ok}
use sohcahtoa_api.Table.{find_unique, modify_unique}
use sohcahtoa_api.Table.Laws.{find_unique-modify_unique, find_unique-append_none}
use sohcahtoa_api.Store.{Db}
use sohcahtoa_api.Store.Rows.{Transaction, TransactionStatus, Deposit, DepositStatus}
use sohcahtoa_api.Store.Writes.{
  transaction_by, settlement_of, deposit_by, deposit_clash, update_transaction, update_deposit,
  create_settlement,
}
use sohcahtoa_api.Payments.World.{World, send_notification}
use sohcahtoa_api.Payments.Deposits.{
  amount_matches, flag_mismatch, post_settlement, settle_deposit, confirm_transaction_deposit,
  amount_mismatch_to, set_status, set_transaction, settlement_for, deposit_step,
  deposit_confirmed_to,
}

-- No other deposit has the session id or the settlement id of `d`.
abbrev pub IsUnique : ℕ → Deposit → Db → Type 0
IsUnique id d db = any (λ e. not (e.id == id) && deposit_clash d e) db.deposits ≡ false

module _ (w : World) (tid id : ℕ) (db : Db) (d : Deposit) (t : Transaction)
    (found : deposit_by id db ≡ some d) (there : transaction_by tid db ≡ some t) where
  abbrev settled_db : Db
  settled_db = record db {
    deposits = modify_unique (λ x. x.id) id (set_status DepositStatus.settled) db.deposits;
    transactions =
        modify_unique (λ x. x.id) tid (set_transaction TransactionStatus.deposit_confirmed)
          db.transactions;
    settlements = db.settlements ++ settlement_for w tid d ∷ [];
    step_logs = db.step_logs ++ deposit_step w tid ∷ [];
    notifications = db.notifications ++ deposit_confirmed_to t tid ∷ [];
  }

  settles :
      amount_matches t.naira_equivalent d.settled_amount ≡ true
      → settlement_of tid db ≡ none
      → IsUnique id (set_status DepositStatus.settled d) db
      → w.notify_fails (deposit_confirmed_to t tid) ≡ false
      → confirm_transaction_deposit w tid id db ≡ (ok tt, settled_db)
  unfolding confirm_transaction_deposit settle_deposit post_settlement update_deposit
      update_transaction create_settlement send_notification
  settles good new unique sent =
      rw found (rw there (rw good (rw found (rw unique (rw there (rw new (rw sent)))))))

  -- A deposit of the right amount, for a transaction without a settlement, is SETTLED by its
  -- confirmation if its session and settlement ids are its own and the notification goes out: the
  -- transaction becomes DEPOSIT_CONFIRMED and gets the settlement of that amount.
  pub confirm_settles :
      amount_matches t.naira_equivalent d.settled_amount ≡ true
      → settlement_of tid db ≡ none
      → IsUnique id (set_status DepositStatus.settled d) db
      → w.notify_fails (deposit_confirmed_to t tid) ≡ false
      → (db' : Db) × (confirm_transaction_deposit w tid id db ≡ (ok tt, db'))
        × (deposit_by id db' ≡ some (set_status DepositStatus.settled d))
        × (transaction_by tid db' ≡ some (set_transaction TransactionStatus.deposit_confirmed t))
        × (settlement_of tid db' ≡ some (settlement_for w tid d))
  unfolding find_unique
  confirm_settles good new unique sent = (
    settled_db,
    settles good new unique sent,
    find_unique-modify_unique (λ x. x.id) (set_status DepositStatus.settled) (λ x. refl) id id
          db.deposits
        ∙ rw (found) (rw (==_refl id)),
    find_unique-modify_unique (λ x. x.id) (set_transaction TransactionStatus.deposit_confirmed)
          (λ x. refl) tid tid db.transactions
        ∙ rw (there) (rw (==_refl tid)),
    find_unique-append_none (λ x. x.transaction_id) tid db.settlements (settlement_for w tid d ∷ [])
          new
        ∙ rw (==_refl tid),
  )

  -- A deposit of any other amount leaves the deposits and the settlements as they were. Its
  -- transaction goes back to DEPOSIT_PENDING if the notification goes out, and stays as it was if
  -- not.
  pub confirm_flags :
      amount_matches t.naira_equivalent d.settled_amount ≡ false
      → ((confirm_transaction_deposit w tid id db).1.deposits ≡ db.deposits)
        × ((confirm_transaction_deposit w tid id db).1.settlements ≡ db.settlements)
        × (transaction_by tid (confirm_transaction_deposit w tid id db).1
            ≡ some (
                if w.notify_fails (amount_mismatch_to t tid)
                then t
                else set_transaction TransactionStatus.deposit_pending t))
  unfolding confirm_transaction_deposit flag_mismatch update_transaction send_notification
  confirm_flags bad = elim (Bool-cases (w.notify_fails (amount_mismatch_to t tid))) [
    | inl fails ↦ rw found (rw there (rw bad (rw (flag_mismatch, fails) (refl, refl, there))))
    | inr sent ↦ rw found (
        rw there (
          rw bad (
            rw (flag_mismatch, sent)
              (rw there (
                refl,
                refl,
                find_unique-modify_unique (λ x. x.id)
                      (set_transaction TransactionStatus.deposit_pending) (λ x. refl) tid tid
                      db.transactions
                    ∙ rw there (rw (==_refl tid)),
              )))))
  ]
