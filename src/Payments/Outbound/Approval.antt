-- ===== src/Payments/Outbound/Approval.antt =====
-- No payout is submitted without an approval: a settlement that is PROCESSING or SUBMITTED has an
-- approver, whatever calls were made.
use text.Mathlib.Text.{◌==◌ as str_eq}
use sohcahtoa_api.Prelude.{
  any, ℕ, ◌≡◌, refl, sym, subst, true, false, Bool, some, [], arith, String, is_some, Option-cases,
  inl, inr, Bool-cases,
}
use sohcahtoa_api.Exec.{Exec, after}
use sohcahtoa_api.Exec.Keeps.{Keeps}
use sohcahtoa_api.Table.{find_unique}
use sohcahtoa_api.Table.Laws.{
  AllFound, AllFound-modify_unique, AllFound-modify_where, AllFound-append,
}
use sohcahtoa_api.Store.Laws.{set_outbound}
use sohcahtoa_api.Store.{Db}
use sohcahtoa_api.Store.Rows.{
  OutboundSettlement, SettlementStatus, Transaction, SettlementBatch, Reconciliation,
}
use sohcahtoa_api.Store.Writes.{
  outbound_by, update_outbound, create_outbound, update_transaction, update_batch, create_batch,
  update_reconciliation, create_reconciliation, update_many_outbound,
}
use sohcahtoa_api.Payments.Outbound.{
  create_outbound_settlement, CreateSettlementOptions, new_settlement,
}

abbrev pub is_live : SettlementStatus → Bool
is_live SettlementStatus.processing = true
is_live SettlementStatus.submitted = true
is_live _ = false

abbrev pub IsApproved : OutboundSettlement → Type 0
IsApproved s = is_live s.status ≡ true → is_some s.approved_by ≡ true

-- Every settlement that a lookup finds has an approver if it is PROCESSING or SUBMITTED.
pub record Inv (db : Db) : Type 0 where
  pub rows : AllFound (λ s. s.id) IsApproved db.outbound

pub Inv-transfer : (db db' : Db) → db'.outbound ≡ db.outbound → Inv db → Inv db'
Inv-transfer db db' e h = record { rows = subst (AllFound (λ s. s.id) IsApproved) (sym e) h.rows }

pub Inv-empty : (db : Db) → db.outbound ≡ [] → Inv db
unfolding find_unique
Inv-empty db e = record {
  rows =
      subst (AllFound (λ s. s.id) IsApproved) (sym e)
        (record { at = λ j s found. absurd (ground arith) });
}

pub set_outbound-Inv :
    (id : ℕ) (f : OutboundSettlement → OutboundSettlement) (db : Db)
    → ((s : OutboundSettlement) → (f s).id ≡ s.id)
    → ((s : OutboundSettlement) → outbound_by id db ≡ some s → IsApproved s → IsApproved (f s))
    → Inv db
    → Inv (set_outbound id f db)
set_outbound-Inv id f db keeps good h = record {
  rows = AllFound-modify_unique (λ s. s.id) IsApproved id f keeps db.outbound good h.rows;
}

-- An update that approves, or takes the settlement out of the two states, keeps the invariant.
pub update_outbound-Inv :
    (id : ℕ) (f : OutboundSettlement → OutboundSettlement)
    → ((s : OutboundSettlement) → (f s).id ≡ s.id)
    → ((s : OutboundSettlement) → IsApproved s → IsApproved (f s))
    → Keeps Inv (update_outbound id f)
unfolding update_outbound
update_outbound-Inv id f keeps good = record {
  at = λ db h. elim (Option-cases (outbound_by id db)) [
    | inl missing ↦ rw missing h
    | inr (s, found) ↦ rw found (set_outbound-Inv id f db keeps (λ r _ q. good r q) h)
  ];
}

-- A write of another table keeps the invariant.
frame-Inv :
    {A : Type 0} (m : Exec Db A) → ((db : Db) → (after m db).outbound ≡ db.outbound) → Keeps Inv m
frame-Inv m same = record { at = λ db h. Inv-transfer db (m db).1 (same db) h }

pub update_transaction-Inv :
    (id : ℕ) (f : Transaction → Transaction) → Keeps Inv (update_transaction id f)
unfolding update_transaction
update_transaction-Inv id f = frame-Inv _ (λ db. ground arith)

pub update_batch-Inv :
    (id : ℕ) (f : SettlementBatch → SettlementBatch) → Keeps Inv (update_batch id f)
unfolding update_batch
update_batch-Inv id f = frame-Inv _ (λ db. ground arith)

pub create_batch-Inv : (b : SettlementBatch) → Keeps Inv (create_batch b)
unfolding create_batch
create_batch-Inv b = frame-Inv _ (λ db. ground arith)

pub update_reconciliation-Inv :
    (id : ℕ) (f : Reconciliation → Reconciliation) → Keeps Inv (update_reconciliation id f)
unfolding update_reconciliation
update_reconciliation-Inv id f = frame-Inv _ (λ db. ground arith)

pub create_reconciliation-Inv : (r : Reconciliation) → Keeps Inv (create_reconciliation r)
create_reconciliation-Inv r = frame-Inv (create_reconciliation r) (λ db. refl)

pub update_many-Inv :
    (p : OutboundSettlement → Bool) (f : OutboundSettlement → OutboundSettlement)
    → ((s : OutboundSettlement) → (f s).id ≡ s.id)
    → ((s : OutboundSettlement) → IsApproved s → IsApproved (f s))
    → Keeps Inv (update_many_outbound p f)
update_many-Inv p f keeps good = record {
  at = λ db h. record {
    rows =
        AllFound-modify_where (λ s. s.id) IsApproved p f keeps db.outbound (λ j s _ _ q. good s q)
          h.rows;
  };
}

pub create-Inv :
    (id : ℕ) (ref : String) (o : CreateSettlementOptions)
    → Keeps Inv (create_outbound_settlement id ref o)
unfolding create_outbound_settlement create_outbound
create-Inv id ref o = record {
  at = λ db h. elim (Bool-cases (any (λ s. str_eq s.reference_number ref) db.outbound)) [
    | inl dup ↦ rw dup h
    | inr new ↦ rw new (record {
      rows =
          AllFound-append (λ s. s.id) IsApproved db.outbound (new_settlement id ref o)
            (λ e. absurd (ground arith)) h.rows;
    })
  ];
}
