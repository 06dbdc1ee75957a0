-- ===== src/Payments/Outbound.antt =====
-- src/modules/payments/services/settlement.service.ts: payouts, alone and in batches. Ids,
-- reference numbers and batch numbers of new rows are arguments. Log lines are left out.
pub mod Status
pub mod Batches
pub mod Cases
pub mod BatchLaws
pub mod Creation
pub mod Approval
pub mod Approvers
use Prim.Native.String.{◌++◌ as ◌+++◌}
use sohcahtoa_api.Prelude.{or_option, ℕ, String, Bool, not, Option, none, some, [], ◌∷◌}
use sohcahtoa_api.Errors.{Error, ErrorCode, app, not_found, internal_error, invalid, wrap}
use sohcahtoa_api.Exec.{Exec, pure, raise, gets, ◌>>=◌, ◌>>◌, try_catch, raise_if, or_raise}
use sohcahtoa_api.Store.{Db}
use sohcahtoa_api.Store.Rows.{OutboundSettlement, SettlementStatus, TransactionStatus, Notification}
use sohcahtoa_api.Store.Writes.{
  outbound_by, transaction_by, update_outbound, update_transaction, create_outbound,
}
use sohcahtoa_api.Payments.World.{World, send_notification, message_of}
use Status.{is_pending, is_processing, status_name}

pub record CreateSettlementOptions : Type 0 where
  pub transaction_id : Option ℕ
  pub amount : ℕ
  pub currency : String
  pub beneficiary_name : String
  pub beneficiary_bank : Option String
  pub beneficiary_account : Option String
  pub beneficiary_swift : Option String
  pub beneficiary_iban : Option String
  pub beneficiary_country : Option String
  pub beneficiary_address : Option String
  pub payment_method : String
  pub initiated_by : ℕ
  pub notes : Option String

abbrev pub new_settlement : ℕ → String → CreateSettlementOptions → OutboundSettlement
new_settlement id reference_number o = record {
  id = id;
  batch_id = none;
  transaction_id = o.transaction_id;
  reference_number = reference_number;
  amount = o.amount;
  currency = o.currency;
  status = SettlementStatus.pending;
  beneficiary_name = o.beneficiary_name;
  beneficiary_bank = o.beneficiary_bank;
  beneficiary_account = o.beneficiary_account;
  beneficiary_swift = o.beneficiary_swift;
  beneficiary_iban = o.beneficiary_iban;
  beneficiary_country = o.beneficiary_country;
  beneficiary_address = o.beneficiary_address;
  payment_method = o.payment_method;
  payment_reference = none;
  payment_proof = none;
  initiated_by = o.initiated_by;
  approved_by = none;
  processed_by = none;
  approved_at = none;
  processed_at = none;
  completed_at = none;
  failed_at = none;
  failure_reason = none;
  notes = o.notes;
}

unfoldable pub create_outbound_settlement :
    ℕ → String → CreateSettlementOptions → Exec Db OutboundSettlement
create_outbound_settlement id reference_number o =
    try_catch (create_outbound (new_settlement id reference_number o))
      (λ e. raise (app internal_error "Failed to create settlement" 500))

abbrev pub settlement_not_found : Error
settlement_not_found = app not_found "Settlement not found" 404

-- the `data` of the updates of approveSettlement, processSettlement and completeSettlement; a value
-- that is undefined leaves its column
abbrev pub mark_approved : World → ℕ → OutboundSettlement → OutboundSettlement
mark_approved w by s = record s {
  status = SettlementStatus.processing;
  approved_by = some by;
  approved_at = some w.now;
}

abbrev pub mark_submitted : World → ℕ → OutboundSettlement → OutboundSettlement
mark_submitted w by s = record s {
  status = SettlementStatus.submitted;
  processed_by = some by;
  processed_at = some w.now;
  payment_reference = some ("PAY-" +++ w.now_text);
}

abbrev pub mark_failed : World → Error → OutboundSettlement → OutboundSettlement
mark_failed w e s = record s {
  status = SettlementStatus.failed;
  failed_at = some w.now;
  failure_reason = some (message_of w e);
}

abbrev pub mark_completed : World → Option String → OutboundSettlement → OutboundSettlement
mark_completed w proof s = record s {
  status = SettlementStatus.completed;
  completed_at = some w.now;
  payment_proof = or_option proof s.payment_proof;
}

abbrev pub cannot_approve : SettlementStatus → Error
cannot_approve status =
    invalid ("Settlement cannot be approved. Current status: " +++ status_name status)

abbrev pub cannot_process : SettlementStatus → Error
cannot_process status =
    invalid ("Settlement cannot be processed. Current status: " +++ status_name status)

unfoldable pub approve_settlement : World → ℕ → ℕ → Exec Db OutboundSettlement
approve_settlement w id approved_by =
    try_catch
      (do
        found ← gets (outbound_by id)
        settlement ← or_raise found settlement_not_found
        raise_if (not (is_pending settlement.status)) (cannot_approve settlement.status)
        update_outbound id (mark_approved w approved_by))
      (λ e. raise (wrap "Failed to approve settlement" e))

-- the notification at the end of processSettlement
unfoldable pub notify_processed : World → Option ℕ → Exec Db (Unit {0})
notify_processed w none = pure tt
notify_processed w (some transaction_id) = do
  found ← gets (transaction_by transaction_id)
  elim found [
    | none ↦ pure tt
    | some t ↦
        send_notification w
          (record { user_id = t.user_id; title = "Payment Processed"; transaction_id = t.id })
  ]

-- the body of the try block of processSettlement
unfoldable pub submit_settlement : World → ℕ → ℕ → Exec Db OutboundSettlement
submit_settlement w id processed_by = do
  found ← gets (outbound_by id)
  settlement ← or_raise found settlement_not_found
  raise_if (not (is_processing settlement.status)) (cannot_process settlement.status)
  updated ← update_outbound id (mark_submitted w processed_by)
  notify_processed w settlement.transaction_id
  pure updated

-- the catch block of processSettlement
unfoldable pub fail_settlement : World → ℕ → Error → Exec Db OutboundSettlement
fail_settlement w id e = do
  update_outbound id (mark_failed w e)
  raise (wrap "Failed to process settlement" e)

unfoldable pub process_settlement : World → ℕ → ℕ → Exec Db OutboundSettlement
process_settlement w id processed_by =
    try_catch (submit_settlement w id processed_by) (fail_settlement w id)

unfoldable pub complete_transaction : World → Option ℕ → Exec Db (Unit {0})
complete_transaction w none = pure tt
complete_transaction w (some transaction_id) = do
  update_transaction transaction_id
      (λ t. record t { status = TransactionStatus.completed; completed_at = some w.now })
  pure tt

unfoldable pub complete_settlement : World → ℕ → Option String → Exec Db OutboundSettlement
complete_settlement w id proof =
    try_catch
      (do
        updated ← update_outbound id (mark_completed w proof)
        complete_transaction w updated.transaction_id
        pure updated)
      (λ e. raise (app internal_error "Failed to complete settlement" 500))

unfoldable pub get_settlement : ℕ → Exec Db OutboundSettlement
get_settlement id = do found ← gets (outbound_by id); or_raise found settlement_not_found
