-- ===== src/Store/Writes.antt =====
-- The database client's `update` and `create` on the tables: `update` on a missing key fails with
-- P2025, and a write that breaks a `@unique` column of prisma/schema.prisma fails with P2002.
use text.Mathlib.Text.{◌==◌ as str_eq}
use sohcahtoa_api.Prelude.{
  ℕ, is_some, Bool, true, false, ◌&&◌, ◌||◌, not, Option, none, some, [], ◌∷◌, ◌++◌, ◌==◌, any,
}
use sohcahtoa_api.Errors.{prisma, record_not_found, unique_violation, ok, err}
use sohcahtoa_api.Exec.{Exec}
use sohcahtoa_api.Table.{find_unique, modify_unique, modify_where}
use sohcahtoa_api.Store.{Db}
use sohcahtoa_api.Store.Rows.{
  Transaction, StepLog, VirtualAccount, Deposit, Settlement, OutboundSettlement, SettlementBatch,
  Reconciliation,
}

abbrev pub transaction_by : ℕ → Db → Option Transaction
transaction_by id db = find_unique (λ t. t.id) id db.transactions

abbrev pub account_by_number : ℕ → Db → Option VirtualAccount
account_by_number number db = find_unique (λ a. a.account_number) number db.virtual_accounts

abbrev pub deposit_by : ℕ → Db → Option Deposit
deposit_by id db = find_unique (λ d. d.id) id db.deposits

abbrev pub deposit_by_session : ℕ → Db → Option Deposit
deposit_by_session session db = find_unique (λ d. d.session_id) session db.deposits

abbrev pub settlement_of : ℕ → Db → Option Settlement
settlement_of transaction db = find_unique (λ s. s.transaction_id) transaction db.settlements

abbrev pub outbound_by : ℕ → Db → Option OutboundSettlement
outbound_by id db = find_unique (λ s. s.id) id db.outbound

abbrev pub batch_by : ℕ → Db → Option SettlementBatch
batch_by id db = find_unique (λ b. b.id) id db.batches

-- the outcome of `update` on the row that was found
abbrev written : {A : Type 0} → Option A → (A → A) → (Db → Db) → Exec Db A
written none f write db = (err (prisma record_not_found), db)
written (some row) f write db = (ok (f row), write db)

unfoldable pub update_transaction : ℕ → (Transaction → Transaction) → Exec Db Transaction
update_transaction id f db =
    written (transaction_by id db) f
      (λ d. record d { transactions = modify_unique (λ t. t.id) id f d.transactions }) db

unfoldable pub update_account : ℕ → (VirtualAccount → VirtualAccount) → Exec Db VirtualAccount
update_account number f db =
    written (account_by_number number db) f
      (λ d. record d {
        virtual_accounts = modify_unique (λ a. a.account_number) number f d.virtual_accounts;
      })
      db

unfoldable pub update_outbound :
    ℕ → (OutboundSettlement → OutboundSettlement) → Exec Db OutboundSettlement
update_outbound id f db =
    written (outbound_by id db) f
      (λ d. record d { outbound = modify_unique (λ s. s.id) id f d.outbound }) db

unfoldable pub update_batch : ℕ → (SettlementBatch → SettlementBatch) → Exec Db SettlementBatch
update_batch id f db =
    written (batch_by id db) f
      (λ d. record d { batches = modify_unique (λ b. b.id) id f d.batches }) db

unfoldable pub update_reconciliation :
    ℕ → (Reconciliation → Reconciliation) → Exec Db Reconciliation
update_reconciliation id f db =
    written (find_unique (λ r. r.id) id db.reconciliations) f
      (λ d. record d { reconciliations = modify_unique (λ r. r.id) id f d.reconciliations }) db

-- Two values of a nullable unique column clash if they are the same and not null.
abbrev pub clash : Option ℕ → Option ℕ → Bool
clash (some a) (some b) = a == b
clash _ _ = false

-- Deposits have the unique columns `sessionId` and `settlementId`.
abbrev pub deposit_clash : Deposit → Deposit → Bool
deposit_clash row d = row.session_id == d.session_id || clash row.settlement_id d.settlement_id

abbrev save_deposit : Bool → ℕ → (Deposit → Deposit) → Deposit → Exec Db Deposit
save_deposit true id f row db = (err (prisma unique_violation), db)
save_deposit false id f row db =
    (ok (f row), record db { deposits = modify_unique (λ d. d.id) id f db.deposits })

abbrev update_found_deposit : Option Deposit → ℕ → (Deposit → Deposit) → Exec Db Deposit
update_found_deposit none id f db = (err (prisma record_not_found), db)
update_found_deposit (some row) id f db =
    save_deposit (any (λ d. not (d.id == id) && deposit_clash (f row) d) db.deposits) id f row db

unfoldable pub update_deposit : ℕ → (Deposit → Deposit) → Exec Db Deposit
update_deposit id f db = update_found_deposit (deposit_by id db) id f db

-- `create`: fails if a unique column is taken
abbrev insert : {A : Type 0} → Bool → A → Db → Exec Db A
insert true row grown db = (err (prisma unique_violation), db)
insert false row grown db = (ok row, grown)

unfoldable pub create_deposit : Deposit → Exec Db Deposit
create_deposit row db =
    insert (any (deposit_clash row) db.deposits) row
      (record db { deposits = db.deposits ++ row ∷ [] }) db

unfoldable pub create_settlement : Settlement → Exec Db Settlement
create_settlement row db =
    insert (is_some (settlement_of row.transaction_id db)) row
      (record db { settlements = db.settlements ++ row ∷ [] }) db

unfoldable pub create_account : VirtualAccount → Exec Db VirtualAccount
create_account row db =
    insert
      (any
        (λ a. a.account_number == row.account_number || clash a.transaction_id row.transaction_id)
        db.virtual_accounts)
      row (record db { virtual_accounts = db.virtual_accounts ++ row ∷ [] }) db

unfoldable pub create_outbound : OutboundSettlement → Exec Db OutboundSettlement
create_outbound row db =
    insert (any (λ s. str_eq s.reference_number row.reference_number) db.outbound) row
      (record db { outbound = db.outbound ++ row ∷ [] }) db

unfoldable pub create_batch : SettlementBatch → Exec Db SettlementBatch
create_batch row db =
    insert (any (λ b. str_eq b.batch_number row.batch_number) db.batches) row
      (record db { batches = db.batches ++ row ∷ [] }) db

abbrev pub create_reconciliation : Reconciliation → Exec Db Reconciliation
create_reconciliation row db =
    (ok row, record db { reconciliations = db.reconciliations ++ row ∷ [] })

abbrev pub create_step_log : StepLog → Exec Db StepLog
create_step_log row db = (ok row, record db { step_logs = db.step_logs ++ row ∷ [] })

-- updateMany on the outbound settlements
abbrev pub update_many_outbound :
    (OutboundSettlement → Bool) → (OutboundSettlement → OutboundSettlement) → Exec Db (Unit {0})
update_many_outbound p f db = (ok tt, record db { outbound = modify_where p f db.outbound })
