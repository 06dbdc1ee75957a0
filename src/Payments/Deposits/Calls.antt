-- ===== src/Payments/Deposits/Calls.antt =====
-- The methods of deposit-verification.service.ts keep the amounts right.
use sohcahtoa_api.Prelude.{
  ℕ, ◌≡◌, refl, sym, subst, true, Option, none, some, arith, Option-cases, Bool-cases, inl, inr,
  String,
}
use sohcahtoa_api.Errors.{ok, err, Result, Result-cases}
use sohcahtoa_api.Exec.{pure, recover, raise}
use sohcahtoa_api.Exec.Laws.{continue-ok, continue-err}
use sohcahtoa_api.Exec.Keeps.{Keeps, Keeps-try_catch, Keeps-raise, keeps_rules}
use sohcahtoa_api.Store.{Db}
use sohcahtoa_api.Store.Rows.{Transaction, Deposit, DepositStatus, VirtualAccount}
use sohcahtoa_api.Store.Writes.{transaction_by, deposit_by, update_deposit}
use sohcahtoa_api.Payments.World.{World}
use sohcahtoa_api.Payments.Deposits.{
  amount_matches, settle_deposit, post_settlement, confirm_transaction_deposit, confirm_if_linked,
  check_deposit, verify_deposit, record_deposit, WebhookPayload, handle_deposit_webhook, set_status,
}
use sohcahtoa_api.Payments.Deposits.Manual.{import_deposit, manual_verify_deposit}
use sohcahtoa_api.Payments.Deposits.Amounts.{
  Inv, update_deposit-Inv, create_deposit-Inv, from_result-Inv,
}
use sohcahtoa_api.Payments.Deposits.Posting.{flag-Inv, post-Inv}

recover-raise : {A : Type 0} (p : Result A × Db) → recover (λ e. raise e) p ≡ p
recover-raise (ok a, db) = refl
recover-raise (err e, db) = refl

transactions-update_deposit :
    (id : ℕ) (f : Deposit → Deposit) (db : Db)
    → (update_deposit id f db).1.transactions ≡ db.transactions
unfolding update_deposit
transactions-update_deposit id f db = ground arith

settle-Inv :
    (w : World) (id deposit_id : ℕ) (d : Deposit) (t : Transaction) (db : Db)
    → transaction_by id db ≡ some t
    → amount_matches t.naira_equivalent d.settled_amount ≡ true
    → Inv db
    → Inv (settle_deposit w id deposit_id d t db).1
unfolding settle_deposit
settle-Inv w id deposit_id d t db there good h =
    let f = set_status DepositStatus.settled in
    let p = update_deposit deposit_id f db in
    let h1 = (update_deposit-Inv deposit_id f).at db h in
    let there1 : transaction_by id p.1 ≡ some t =
      rw (transactions-update_deposit deposit_id f db) there in
    elim (Result-cases p.0) [
      | inl (a, e) ↦
          subst (λ q. Inv q.1) (sym (continue-ok (λ _. post_settlement w id d t) p a e))
            (post-Inv w id d t p.1 there1 good h1)
      | inr (e, failed) ↦
          subst (λ q. Inv q.1) (sym (continue-err (λ _. post_settlement w id d t) p e failed)) h1
    ]

confirm-Inv :
    (w : World) (id deposit_id : ℕ) → Keeps Inv (confirm_transaction_deposit w id deposit_id)
unfolding confirm_transaction_deposit
confirm-Inv w id deposit_id = record {
  at = λ db h. elim (Option-cases (deposit_by deposit_id db)) [
    | inl lost ↦ rw lost h
    | inr (d, found) ↦ elim (Option-cases (transaction_by id db)) [
      | inl missing ↦ rw found (rw missing h)
      | inr (t, there) ↦ elim (Bool-cases (amount_matches t.naira_equivalent d.settled_amount)) [
        | inl good ↦ rw found (
            rw there (
              rw good (
                subst (λ q. Inv q.1) (sym (recover-raise (settle_deposit w id deposit_id d t db)))
                  (settle-Inv w id deposit_id d t db there good h))))
        | inr bad ↦ rw found (
            rw there (
              rw bad (
                (Keeps-try_catch _ (λ e. raise e) (flag-Inv w id t) (λ e. Keeps-raise e)).at db h)))
      ]
    ]
  ];
}

pub confirm_if_linked-Inv :
    (w : World) (t : Option ℕ) (id : ℕ) → Keeps Inv (confirm_if_linked w t id)
unfolding confirm_if_linked
confirm_if_linked-Inv w none id = search keeps_rules
confirm_if_linked-Inv w (some t) id = confirm-Inv w t id

check-Inv : (w : World) (id : ℕ) → Keeps Inv (check_deposit w id)
unfolding check_deposit
check-Inv w id =
    search (keeps_rules, from_result-Inv, update_deposit-Inv, confirm_if_linked-Inv) depth 14

pub verify-Inv : (w : World) (id : ℕ) → Keeps Inv (verify_deposit w id)
unfolding verify_deposit
verify-Inv w id = search (keeps_rules, check-Inv, update_deposit-Inv) depth 10

record-Inv :
    (w : World) (id : ℕ) (p : WebhookPayload) (a : VirtualAccount)
    → Keeps Inv (record_deposit w id p a)
unfolding record_deposit
record-Inv w id p a = search (keeps_rules, create_deposit-Inv, verify-Inv) depth 10

or_record-Inv :
    (w : World) (id : ℕ) (p : WebhookPayload) (a : VirtualAccount) (o : Option Deposit)
    → Keeps Inv (elim o [ some deposit ↦ pure deposit | none ↦ record_deposit w id p a ])
or_record-Inv w id p a none = record-Inv w id p a
or_record-Inv w id p a (some d) = search keeps_rules

pub webhook-Inv :
    (w : World) (id : ℕ) (p : WebhookPayload) → Keeps Inv (handle_deposit_webhook w id p)
unfolding handle_deposit_webhook
webhook-Inv w id p = search (keeps_rules, or_record-Inv) depth 14

import_deposit-Inv :
    (w : World) (text : ℕ → String) (id session : ℕ) → Keeps Inv (import_deposit w text id session)
unfolding import_deposit
import_deposit-Inv w text id session =
    search (keeps_rules, from_result-Inv, create_deposit-Inv, confirm_if_linked-Inv) depth 14

or_import-Inv :
    (w : World) (text : ℕ → String) (id session : ℕ) (o : Option Deposit)
    → Keeps Inv (elim o [
      | some deposit ↦ verify_deposit w deposit.id
      | none ↦ import_deposit w text id session
    ])
or_import-Inv w text id session none = import_deposit-Inv w text id session
or_import-Inv w text id session (some d) = verify-Inv w d.id

pub manual-Inv :
    (w : World) (text : ℕ → String) (id session : ℕ)
    → Keeps Inv (manual_verify_deposit w text id session)
unfolding manual_verify_deposit
manual-Inv w text id session = search (keeps_rules, or_import-Inv) depth 14
