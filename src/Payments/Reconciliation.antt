-- ===== src/Payments/Reconciliation.antt =====
-- src/modules/payments/services/settlement-reconciliation.service.ts. Ids of new records are
-- arguments. The Providus answer, kept as JSON, and log lines are left out.
pub mod Matching
pub mod Closing
use Prim.Native.String.{◌++◌ as ◌+++◌}
use sohcahtoa_api.Prelude.{
  or_option, ℕ, ◌+◌, ◌≤◌, String, Bool, true, false, not, ◌&&◌, Option, none, some, List, [], ◌∷◌,
  ◌++◌, ◌==◌, ltb, leb, if◌then◌else◌, length, filter, find, ℤ, nat_abs,
}
use sohcahtoa_api.Doubles.{double, minus}
use sohcahtoa_api.Errors.{Error, Result, ok, err, app, internal_error, wrap}
use sohcahtoa_api.Exec.{Exec, pure, raise, gets, ◌>>=◌, ◌>>◌, try_catch, or_raise}
use sohcahtoa_api.Table.{find_unique}
use sohcahtoa_api.Store.{Db}
use sohcahtoa_api.Store.Rows.{
  OutboundSettlement, SettlementStatus, Reconciliation, ReconciliationStatus, ReconciliationType,
}
use sohcahtoa_api.Store.Writes.{
  outbound_by, batch_by, update_outbound, update_reconciliation, create_reconciliation,
}
use sohcahtoa_api.Payments.World.{World, Verification, verify_by_session, message_of}
use sohcahtoa_api.Payments.Outbound.{settlement_not_found}
use sohcahtoa_api.Payments.Outbound.Batches.{batch_not_found, batch_settlements}

-- the double 0.01
abbrev pub tolerance : ℕ
tolerance = double 100

abbrev pub pending_record : ℕ → ReconciliationType → OutboundSettlement → Reconciliation
pending_record id type s = record {
  id = id;
  settlement_id = s.id;
  reconciliation_type = type;
  expected_amount = s.amount;
  actual_amount = none;
  variance = none;
  status = ReconciliationStatus.pending;
  reconciled_by = none;
  reconciled_at = none;
  notes = none;
}

unfoldable pub open_reconciliation : ℕ → ReconciliationType → ℕ → Exec Db Reconciliation
open_reconciliation id type settlement_id =
    try_catch
      (do
        found ← gets (outbound_by settlement_id)
        settlement ← or_raise found settlement_not_found
        create_reconciliation (pending_record id type settlement))
      (λ e. raise (wrap "Failed to create reconciliation record" e))

pub record ReconcileOptions : Type 0 where
  pub settlement_id : ℕ
  pub actual_amount : Option ℕ
  pub providus_session_id : Option ℕ
  pub reconciled_by : ℕ
  pub notes : Option String

-- The amount that was paid: Providus's, if a session id is given and the verification succeeds,
-- and the caller's otherwise.
unfoldable pub actual_amount_of : World → ReconcileOptions → Option ℕ
actual_amount_of w o = elim o.providus_session_id [
  | none ↦ o.actual_amount
  | some session ↦ elim (verify_by_session w session) [
    | ok v ↦ some v.settled_amount
    | err e ↦ o.actual_amount
  ]
]

-- actualAmount ? actualAmount - expectedAmount : null, on doubles
unfoldable pub variance_of : Option ℕ → ℕ → Option ℤ
variance_of none expected = none
variance_of (some actual) expected =
    if actual == 0 then none else some (minus (double actual) (double expected))

unfoldable pub reconciliation_status : Option ℤ → ReconciliationStatus
reconciliation_status none = ReconciliationStatus.pending
reconciliation_status (some v) =
    if ltb (nat_abs v) tolerance
    then ReconciliationStatus.matched
    else ReconciliationStatus.variance

abbrev pub is_matched : ReconciliationStatus → Bool
is_matched ReconciliationStatus.matched = true
is_matched _ = false

-- findFirst({ where: { settlementId } })
abbrev pub reconciliation_of : ℕ → Db → Option Reconciliation
reconciliation_of settlement_id db =
    find_unique (λ r. r.settlement_id) settlement_id db.reconciliations

-- the `data` of the update; a value that is undefined leaves its column
abbrev pub judged : World → ReconcileOptions → Option ℕ → Option ℤ → Reconciliation → Reconciliation
judged w o actual variance r = record r {
  actual_amount = or_option actual r.actual_amount;
  variance = variance;
  status = reconciliation_status variance;
  reconciled_by = some o.reconciled_by;
  reconciled_at = some w.now;
  notes = or_option o.notes r.notes;
}

-- create or update, as a record for the settlement exists or not
unfoldable pub save_reconciliation :
    World → ℕ → ReconcileOptions → OutboundSettlement → Option ℕ → Option ℤ → Exec Db Reconciliation
save_reconciliation w id o s actual variance = do
  existing ← gets (reconciliation_of o.settlement_id)
  elim existing [
    | some r ↦ update_reconciliation r.id (judged w o actual variance)
    | none ↦ create_reconciliation (
        judged w o actual variance (
          pending_record id
            (elim o.providus_session_id [
              | none ↦ ReconciliationType.manual
              | some _ ↦ ReconciliationType.providus_verify
            ])
            s))
  ]

abbrev pub mark_reconciled : World → OutboundSettlement → OutboundSettlement
mark_reconciled w s = record s { status = SettlementStatus.completed; completed_at = some w.now }

unfoldable pub close_if_matched : World → ℕ → Bool → Exec Db (Unit {0})
close_if_matched w id false = pure tt
close_if_matched w id true = do update_outbound id (mark_reconciled w); pure tt

unfoldable pub reconcile_settlement : World → ℕ → ReconcileOptions → Exec Db Reconciliation
unfolding variance_of reconciliation_status
reconcile_settlement w id o =
    try_catch
      (do
        found ← gets (outbound_by o.settlement_id)
        settlement ← or_raise found settlement_not_found
        let actual = actual_amount_of w o
        let variance = variance_of actual settlement.amount
        reconciliation ← save_reconciliation w id o settlement actual variance
        close_if_matched w o.settlement_id (is_matched (reconciliation_status variance))
        pure reconciliation)
      (λ e. raise (wrap "Failed to reconcile settlement" e))

pub record ReconcileResults : Type 0 where
  pub total : ℕ
  pub matched : ℕ
  pub variance : ℕ
  pub pending : ℕ
  pub errors : List String

abbrev pub no_results : ℕ → ReconcileResults
no_results n = record { total = n; matched = 0; variance = 0; pending = 0; errors = [] }

abbrev pub tally : ReconciliationStatus → ReconcileResults → ReconcileResults
tally ReconciliationStatus.matched r = record r { matched = r.matched + 1 }
tally ReconciliationStatus.variance r = record r { variance = r.variance + 1 }
tally _ r = record r { pending = r.pending + 1 }

abbrev pub add_error : World → OutboundSettlement → Error → ReconcileResults → ReconcileResults
add_error w s e r = record r {
  errors = r.errors ++ ("Settlement " +++ (s.reference_number +++ (": " +++ message_of w e))) ∷ [];
}

-- the body of the loop of reconcileBatch; `ids` are the ids of the new records
unfoldable pub reconcile_one :
    World → (ℕ → ℕ) → OutboundSettlement → ReconcileResults → Exec Db ReconcileResults
reconcile_one w ids s results =
    try_catch
      (do
        reconciliation ← open_reconciliation (ids s.id) ReconciliationType.auto s.id
        pure (tally reconciliation.status results))
      (λ e. pure (add_error w s e results))

unfoldable pub reconcile_each :
    World → (ℕ → ℕ) → List OutboundSettlement → ReconcileResults → Exec Db ReconcileResults
unfolding reconcile_one
reconcile_each w ids [] results = pure results
reconcile_each w ids (s ∷ rest) results = do
  results' ← reconcile_one w ids s results
  reconcile_each w ids rest results'

unfoldable pub reconcile_batch : World → (ℕ → ℕ) → ℕ → Exec Db ReconcileResults
reconcile_batch w ids batch_id =
    try_catch
      (do
        found ← gets (batch_by batch_id)
        or_raise found batch_not_found
        settlements ← gets (batch_settlements batch_id)
        reconcile_each w ids settlements (no_results (length settlements)))
      (λ e. raise (wrap "Failed to reconcile batch" e))

unfoldable pub resolve_variance : World → ℕ → String → ℕ → Exec Db Reconciliation
resolve_variance w id resolution resolved_by =
    try_catch
      (update_reconciliation id (λ r. record r {
        status = ReconciliationStatus.resolved;
        reconciled_by = some resolved_by;
        reconciled_at = some w.now;
        notes = some resolution;
      }))
      (λ e. raise (app internal_error "Failed to resolve variance" 500))
