-- ===== src/Payments/Deposits/Posting.antt =====
-- The two branches of a confirmation keep the amounts right.
use sohcahtoa_api.Prelude.{
  ℕ, ◌≡◌, refl, ap, ◌∙◌, true, none, some, [], ◌∷◌, ◌++◌, is_some, Option-cases, inl, inr, ==_refl,
}
use sohcahtoa_api.Exec.{Exec, ◌>>◌}
use sohcahtoa_api.Exec.Keeps.{Keeps, keeps_rules}
use sohcahtoa_api.Table.{find_unique}
use sohcahtoa_api.Table.Laws.{find_unique-append_none}
use sohcahtoa_api.Store.{Db}
use sohcahtoa_api.Store.Rows.{Transaction, TransactionStatus, Deposit}
use sohcahtoa_api.Store.Writes.{
  transaction_by, settlement_of, update_transaction, create_settlement, create_step_log,
}
use sohcahtoa_api.Payments.World.{World, send_notification}
use sohcahtoa_api.Payments.Deposits.{
  deposit_confirmed_to, deposit_step, amount_matches, flag_mismatch, post_settlement,
  set_transaction, settlement_for,
}
use sohcahtoa_api.Payments.Deposits.Amounts.{
  Inv, create_step_log-Inv, send-Inv, set_tx, set_tx-Inv, append-Inv, update_transaction-Inv,
}

pend-Inv :
    (id : ℕ) → Keeps Inv (update_transaction id (set_transaction TransactionStatus.deposit_pending))
pend-Inv id =
    update_transaction-Inv id (set_transaction TransactionStatus.deposit_pending) (λ t. refl)
      (λ t. refl) (λ t. refl)

pub flag-Inv : (w : World) (id : ℕ) (t : Transaction) → Keeps Inv (flag_mismatch w id t)
unfolding flag_mismatch
flag-Inv w id t = search (keeps_rules, send-Inv, pend-Inv) depth 8

abbrev log_and_send : World → ℕ → Transaction → Exec Db (Unit {0})
log_and_send w id t = do
  create_step_log (deposit_step w id)
  send_notification w (deposit_confirmed_to t id)

log_and_send-Inv : (w : World) (id : ℕ) (t : Transaction) → Keeps Inv (log_and_send w id t)
log_and_send-Inv w id t = search (keeps_rules, create_step_log-Inv, send-Inv) depth 8

module _ (w : World) (id : ℕ) (d : Deposit) (t : Transaction) (db : Db) where
  abbrev confirm_tx : Transaction → Transaction
  confirm_tx = set_transaction TransactionStatus.deposit_confirmed

  abbrev with_settlement : Db
  with_settlement = record db { settlements = db.settlements ++ settlement_for w id d ∷ [] }

  has_settlement :
      settlement_of id db ≡ none → settlement_of id with_settlement ≡ some (settlement_for w id d)
  unfolding find_unique
  has_settlement new =
      find_unique-append_none (λ x. x.transaction_id) id db.settlements (settlement_for w id d ∷ [])
        new
      ∙ rw (==_refl id)

  -- The last steps of a confirmation keep the invariant, for a deposit of the right amount.
  pub post-Inv :
      transaction_by id db ≡ some t
      → amount_matches t.naira_equivalent d.settled_amount ≡ true
      → Inv db
      → Inv (post_settlement w id d t db).1
  unfolding post_settlement update_transaction create_settlement
  post-Inv there good h = elim (Option-cases (settlement_of id db)) [
    | inr (old, was) ↦
        rw there
          (rw was (set_tx-Inv id confirm_tx db (λ r. refl) (λ r. refl) (λ _ _. ap is_some was) h))
    | inl new ↦
        let grown = append-Inv (settlement_for w id d) t db there good h in
        rw there (
          rw new (
            (log_and_send-Inv w id t).at (set_tx id confirm_tx with_settlement) (
              set_tx-Inv id confirm_tx with_settlement (λ r. refl) (λ r. refl)
                (λ _ _. ap is_some (has_settlement new)) grown)))
  ]
