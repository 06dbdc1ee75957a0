-- ===== src/Payments/Deposits/Amounts.antt =====
-- A deposit settles a transaction only with the right amount, whatever calls are made.
use sohcahtoa_api.Prelude.{
  ℕ, ◌≡◌, refl, ap, sym, subst, ◌∙◌, true, false, Bool, some, [], ◌∷◌, ◌++◌, arith, ◌==◌, is_some,
  Option-cases, Bool-cases, inl, inr, ==_eq,
}
use sohcahtoa_api.Errors.{Result}
use sohcahtoa_api.Exec.{Exec, after}
use sohcahtoa_api.Exec.Keeps.{Keeps}
use sohcahtoa_api.Table.{find_unique, modify_unique}
use sohcahtoa_api.Table.Laws.{
  find_unique-modify_unique, find_unique-append_some, find_unique-append_none,
}
use sohcahtoa_api.Store.{Db}
use sohcahtoa_api.Store.Rows.{
  Transaction, TransactionStatus, Deposit, Settlement, StepLog, Notification,
}
use sohcahtoa_api.Store.Writes.{
  transaction_by, settlement_of, update_transaction, update_deposit, create_deposit,
  create_step_log,
}
use sohcahtoa_api.Payments.World.{World, send_notification}
use sohcahtoa_api.Payments.Deposits.{amount_matches, from_result}

abbrev pub is_confirmed : TransactionStatus → Bool
is_confirmed TransactionStatus.deposit_confirmed = true
is_confirmed _ = false

-- Settlements have their transaction's amount; a confirmed transaction has a settlement.
pub record Inv (db : Db) : Type 0 where
  pub amounts :
      (t : ℕ) (s : Settlement)
      → settlement_of t db ≡ some s
      → (tx : Transaction) × (transaction_by t db ≡ some tx)
        × (amount_matches tx.naira_equivalent s.amount ≡ true)
  pub confirmed :
      (t : ℕ) (tx : Transaction)
      → transaction_by t db ≡ some tx
      → is_confirmed tx.status ≡ true
      → is_some (settlement_of t db) ≡ true

abbrev pub Untouched : Db → Db → Type 0
Untouched db db' = (db'.transactions ≡ db.transactions) × (db'.settlements ≡ db.settlements)

pub Inv-empty :
    (db : Db)
    → db.settlements ≡ []
    → ((t : ℕ) (tx : Transaction) → transaction_by t db ≡ some tx → is_confirmed tx.status ≡ false)
    → Inv db
unfolding find_unique
Inv-empty db none_yet unconfirmed = record {
  amounts = λ t s found. absurd (ground arith);
  confirmed = λ t tx found c. let no = unconfirmed t tx found in absurd (ground arith);
}

Inv-transfer : (db db' : Db) → Untouched db db' → Inv db → Inv db'
Inv-transfer db db' (e, f) h = record {
  amounts = λ t s found.
      let (tx, there, good) =
        h.amounts t s (ap (find_unique (λ r. r.transaction_id) t) (sym f) ∙ found) in
      (tx, ap (find_unique (λ r. r.id) t) e ∙ there, good);
  confirmed = λ t tx found c.
      ap (λ l. is_some (find_unique (λ r. r.transaction_id) t l)) f
      ∙ h.confirmed t tx (ap (find_unique (λ r. r.id) t) (sym e) ∙ found) c;
}

-- A write of another table keeps the invariant.
pub frame-Inv : {A : Type 0} (m : Exec Db A) → ((db : Db) → Untouched db (after m db)) → Keeps Inv m
frame-Inv m same = record { at = λ db h. Inv-transfer db (m db).1 (same db) h }

pub update_deposit-Inv : (id : ℕ) (f : Deposit → Deposit) → Keeps Inv (update_deposit id f)
unfolding update_deposit
update_deposit-Inv id f = frame-Inv _ (λ db. (ground arith, ground arith))

pub create_deposit-Inv : (d : Deposit) → Keeps Inv (create_deposit d)
unfolding create_deposit
create_deposit-Inv d = frame-Inv _ (λ db. (ground arith, ground arith))

pub create_step_log-Inv : (l : StepLog) → Keeps Inv (create_step_log l)
create_step_log-Inv l = frame-Inv _ (λ db. (refl, refl))

pub send-Inv : (w : World) (n : Notification) → Keeps Inv (send_notification w n)
unfolding send_notification
send-Inv w n = frame-Inv _ (λ db. (ground arith, ground arith))

pub from_result-Inv : {A : Type 0} (r : Result A) → Keeps Inv (from_result r)
from_result-Inv r = record { at = λ db h. h }

abbrev pub set_tx : ℕ → (Transaction → Transaction) → Db → Db
set_tx id f db = record db { transactions = modify_unique (λ t. t.id) id f db.transactions }

-- A change of a transaction that keeps its id and its amount, and does not confirm it unless it
-- has a settlement.
pub set_tx-Inv :
    (id : ℕ) (f : Transaction → Transaction) (db : Db)
    → ((t : Transaction) → (f t).id ≡ t.id)
    → ((t : Transaction) → (f t).naira_equivalent ≡ t.naira_equivalent)
    → ((t : Transaction) → is_confirmed (f t).status ≡ true → is_some (settlement_of id db) ≡ true)
    → Inv db
    → Inv (set_tx id f db)
set_tx-Inv id f db keeps same_amount ready h = record {
  amounts = λ t s found.
      let (tx, there, good) = h.amounts t s found in
      let moved = find_unique-modify_unique (λ r. r.id) f keeps id t db.transactions in
      elim (Bool-cases (id == t)) [
        | inl here ↦
            (f tx, ground arith, ap (λ n. amount_matches n s.amount) (same_amount tx) ∙ good)
        | inr away ↦ (tx, ground arith, good)
      ];
  confirmed = λ t tx found c.
      let moved = find_unique-modify_unique (λ r. r.id) f keeps id t db.transactions in
      elim (Option-cases (transaction_by t db)) [
        | inl missing ↦ absurd (ground arith)
        | inr (old, there) ↦ elim (Bool-cases (id == t)) [
          | inl here ↦
              let same : f old ≡ tx = ground arith in
              subst (λ i. is_some (settlement_of i db) ≡ true) (==_eq id t here)
                (ready old (ap (λ x. is_confirmed x.status) same ∙ c))
          | inr away ↦
              let same : old ≡ tx = ground arith in
              h.confirmed t old there (ap (λ x. is_confirmed x.status) same ∙ c)
        ]
      ];
}

-- A new settlement of a transaction that has none, with the right amount.
pub append-Inv :
    (s : Settlement) (tx : Transaction) (db : Db)
    → transaction_by s.transaction_id db ≡ some tx
    → amount_matches tx.naira_equivalent s.amount ≡ true
    → Inv db
    → Inv (record db { settlements = db.settlements ++ s ∷ [] })
unfolding find_unique
append-Inv s tx db there good h = record {
  amounts = λ t r found. elim (Option-cases (settlement_of t db)) [
    | inl missing ↦
        let last =
          find_unique-append_none (λ x. x.transaction_id) t db.settlements (s ∷ []) missing in
        elim (Bool-cases (s.transaction_id == t)) [
          | inl here ↦
              let same : s ≡ r = ground arith in
              (
                tx,
                subst (λ i. transaction_by i db ≡ some tx) (==_eq s.transaction_id t here) there,
                ap (λ x. amount_matches tx.naira_equivalent x.amount) (sym same) ∙ good,
              )
          | inr away ↦ absurd (ground arith)
        ]
    | inr (old, was) ↦
        let first =
          find_unique-append_some (λ x. x.transaction_id) t db.settlements (s ∷ []) old was in
        let same : old ≡ r = ground arith in
        let (t1, there1, good1) = h.amounts t old was in
        (t1, there1, ap (λ x. amount_matches t1.naira_equivalent x.amount) (sym same) ∙ good1)
  ];
  confirmed = λ t r found c. elim (Option-cases (settlement_of t db)) [
    | inl missing ↦ let has = h.confirmed t r found c in absurd (ground arith)
    | inr (old, was) ↦
        rw (find_unique-append_some (λ x. x.transaction_id) t db.settlements (s ∷ []) old was) refl
  ];
}

-- Any update of a transaction that keeps its id and amount and does not confirm it.
pub update_transaction-Inv :
    (id : ℕ) (f : Transaction → Transaction)
    → ((t : Transaction) → (f t).id ≡ t.id)
    → ((t : Transaction) → (f t).naira_equivalent ≡ t.naira_equivalent)
    → ((t : Transaction) → is_confirmed (f t).status ≡ false)
    → Keeps Inv (update_transaction id f)
unfolding update_transaction
update_transaction-Inv id f keeps same_amount unconfirmed = record {
  at = λ db h. elim (Option-cases (transaction_by id db)) [
    | inl missing ↦ rw missing h
    | inr (t, found) ↦ rw found (
        set_tx-Inv id f db keeps same_amount
          (λ r c. let no = unconfirmed r in absurd (ground arith)) h)
  ];
}
