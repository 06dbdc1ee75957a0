-- ===== src/Payments/Deposits/Recorded.antt =====
-- A session id that has a deposit keeps it through every method of
-- src/modules/payments/services/deposit-verification.service.ts.
use sohcahtoa_api.Prelude.{
  ℕ, ◌≡◌, refl, ap, ◌∙◌, Bool, true, false, Option, none, some, is_some, any, not, ◌&&◌, ◌==◌,
  arith, Option-cases, Bool-cases, inl, inr, if◌then◌else◌,
}
use sohcahtoa_api.Errors.{Result}
use sohcahtoa_api.Exec.{Exec, after}
use sohcahtoa_api.Exec.Keeps.{Keeps, keeps_rules}
use sohcahtoa_api.Table.{find_unique, modify_unique}
use sohcahtoa_api.Table.Laws.{map_found, find_unique-modify_where_found}
use sohcahtoa_api.Store.{Db}
use sohcahtoa_api.Store.Rows.{
  Transaction, Deposit, Settlement, StepLog, Notification, DepositStatus,
}
use sohcahtoa_api.Store.Writes.{
  deposit_by, deposit_clash, deposit_by_session, update_deposit, update_transaction,
  create_settlement, create_step_log,
}
use sohcahtoa_api.Payments.World.{World, Verification, send_notification}
use sohcahtoa_api.Payments.Deposits.{
  settle_deposit, post_settlement, flag_mismatch, confirm_transaction_deposit, confirm_if_linked,
  check_deposit, verify_deposit, from_result, set_status, mark_verified,
}

-- the session id has a deposit
pub record Recorded (session : ℕ) (db : Db) : Type 0 where
  pub there : is_some (deposit_by_session session db) ≡ true

is_some-map_found : {A : Type 0} (f : A → A) (o : Option A) → is_some (map_found f o) ≡ is_some o
is_some-map_found f none = refl
is_some-map_found f (some a) = refl

module _ (session : ℕ) where
  frame-Recorded :
      {A : Type 0} (m : Exec Db A)
      → ((db : Db) → (after m db).deposits ≡ db.deposits)
      → Keeps (Recorded session) m
  frame-Recorded m same = record {
    at = λ db h. record {
      there = ap (λ l. is_some (find_unique (λ d. d.session_id) session l)) (same db) ∙ h.there;
    };
  }

  update_transaction-Recorded :
      (id : ℕ) (f : Transaction → Transaction) → Keeps (Recorded session) (update_transaction id f)
  unfolding update_transaction
  update_transaction-Recorded id f = frame-Recorded _ (λ db. ground arith)

  create_settlement-Recorded : (s : Settlement) → Keeps (Recorded session) (create_settlement s)
  unfolding create_settlement
  create_settlement-Recorded s = frame-Recorded _ (λ db. ground arith)

  create_step_log-Recorded : (l : StepLog) → Keeps (Recorded session) (create_step_log l)
  create_step_log-Recorded l = frame-Recorded _ (λ db. refl)

  send-Recorded : (w : World) (n : Notification) → Keeps (Recorded session) (send_notification w n)
  unfolding send_notification
  send-Recorded w n = frame-Recorded _ (λ db. ground arith)

  from_result-Recorded : {A : Type 0} (r : Result A) → Keeps (Recorded session) (from_result r)
  from_result-Recorded r = record { at = λ db h. h }

  changed :
      (id : ℕ) (f : Deposit → Deposit) (db : Db)
      → ((d : Deposit) → (f d).session_id ≡ d.session_id)
      → Recorded session db
      → Recorded session (record db { deposits = modify_unique (λ d. d.id) id f db.deposits })
  unfolding modify_unique
  changed id f db keeps h = record {
    there =
        ap is_some (
          find_unique-modify_where_found (λ d. d.session_id) (λ d. d.id == id) f keeps session
            db.deposits)
        ∙ is_some-map_found _ (deposit_by_session session db)
        ∙ h.there;
  }

  update_deposit-Recorded :
      (id : ℕ) (f : Deposit → Deposit)
      → ((d : Deposit) → (f d).session_id ≡ d.session_id)
      → Keeps (Recorded session) (update_deposit id f)
  unfolding update_deposit
  update_deposit-Recorded id f keeps = record {
    at = λ db h. elim (Option-cases (deposit_by id db)) [
      | inl missing ↦ rw missing h
      | inr (d, found) ↦
          rw found
            (elim (Bool-cases (any (λ x. not (x.id == id) && deposit_clash (f d) x) db.deposits)) [
              | inl taken ↦ rw taken h
              | inr free ↦ rw free (changed id f db keeps h)
            ])
    ];
  }

  Keeps-if :
      {A : Type 0} (b : Bool) (m n : Exec Db A)
      → Keeps (Recorded session) m
      → Keeps (Recorded session) n
      → Keeps (Recorded session) (if b then m else n)
  Keeps-if true m n km kn = km
  Keeps-if false m n km kn = kn

  status-Recorded :
      (id : ℕ) (st : DepositStatus) → Keeps (Recorded session) (update_deposit id (set_status st))
  status-Recorded id st = update_deposit-Recorded id (set_status st) (λ d. refl)

  verified-Recorded :
      (w : World) (v : Verification) (read : Deposit) (id : ℕ)
      → Keeps (Recorded session) (update_deposit id (mark_verified w v read))
  verified-Recorded w v read id = update_deposit-Recorded id (mark_verified w v read) (λ d. refl)

  post-Recorded :
      (w : World) (id : ℕ) (d : Deposit) (t : Transaction)
      → Keeps (Recorded session) (post_settlement w id d t)
  unfolding post_settlement
  post-Recorded w id d t =
      search
        (
          keeps_rules, update_transaction-Recorded, create_settlement-Recorded,
          create_step_log-Recorded, send-Recorded,
        )
        depth 14

  settle-Recorded :
      (w : World) (id deposit : ℕ) (d : Deposit) (t : Transaction)
      → Keeps (Recorded session) (settle_deposit w id deposit d t)
  unfolding settle_deposit
  settle-Recorded w id deposit d t = search (keeps_rules, status-Recorded, post-Recorded) depth 8

  flag-Recorded :
      (w : World) (id : ℕ) (t : Transaction) → Keeps (Recorded session) (flag_mismatch w id t)
  unfolding flag_mismatch
  flag-Recorded w id t = search (keeps_rules, update_transaction-Recorded, send-Recorded) depth 10

  confirm-Recorded :
      (w : World) (id deposit : ℕ)
      → Keeps (Recorded session) (confirm_transaction_deposit w id deposit)
  unfolding confirm_transaction_deposit
  confirm-Recorded w id deposit =
      search (keeps_rules, Keeps-if, settle-Recorded, flag-Recorded) depth 16

  linked-Recorded :
      (w : World) (t : Option ℕ) (id : ℕ) → Keeps (Recorded session) (confirm_if_linked w t id)
  unfolding confirm_if_linked
  linked-Recorded w none id = search keeps_rules
  linked-Recorded w (some t) id = confirm-Recorded w t id

  check-Recorded : (w : World) (id : ℕ) → Keeps (Recorded session) (check_deposit w id)
  unfolding check_deposit
  check-Recorded w id =
      search (keeps_rules, from_result-Recorded, verified-Recorded, linked-Recorded) depth 14

  pub verify-Recorded : (w : World) (id : ℕ) → Keeps (Recorded session) (verify_deposit w id)
  unfolding verify_deposit
  verify-Recorded w id = search (keeps_rules, check-Recorded, status-Recorded) depth 10
