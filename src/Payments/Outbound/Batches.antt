-- ===== src/Payments/Outbound/Batches.antt =====
-- The batch operations of settlement.service.ts.
use Prim.Native.String.{◌++◌ as ◌+++◌}
use sohcahtoa_api.Prelude.{
  ℕ, ◌+◌, String, Bool, not, ◌&&◌, Option, none, some, List, [], ◌∷◌, ◌++◌, ◌==◌, if◌then◌else◌,
  length, filter, any, sum_by,
}
use sohcahtoa_api.Errors.{Error, app, other, not_found, invalid, wrap}
use sohcahtoa_api.Exec.{Exec, pure, raise, gets, ◌>>=◌, ◌>>◌, try_catch, raise_if, or_raise}
use sohcahtoa_api.Store.{Db}
use sohcahtoa_api.Store.Rows.{
  OutboundSettlement, SettlementBatch, SettlementDirection, SettlementStatus,
}
use sohcahtoa_api.Store.Writes.{batch_by, create_batch, update_batch, update_many_outbound}
use sohcahtoa_api.Payments.World.{World, message_of}
use sohcahtoa_api.Payments.Outbound.Status.{is_pending, is_processing, status_name}
use sohcahtoa_api.Payments.Outbound.{process_settlement, mark_approved}

pub record CreateBatchOptions : Type 0 where
  pub direction : SettlementDirection
  pub settlement_ids : List ℕ
  pub description : Option String
  pub created_by : ℕ

-- { id: { in: ids } }
abbrev pub listed : List ℕ → OutboundSettlement → Bool
listed ids s = any (λ id. id == s.id) ids

-- findMany({ where: { id: { in: ids }, status: PENDING } })
abbrev pub pending_among : List ℕ → Db → List OutboundSettlement
pending_among ids db = filter (λ s. listed ids s && is_pending s.status) db.outbound

-- settlements[0].currency
abbrev pub first_currency : List OutboundSettlement → Exec Db String
first_currency [] = raise (other "Cannot read properties of undefined (reading 'currency')")
first_currency (s ∷ _) = pure s.currency

abbrev pub new_batch :
    ℕ → String → CreateBatchOptions → List OutboundSettlement → String → SettlementBatch
new_batch id number o settlements currency = record {
  id = id;
  batch_number = number;
  direction = o.direction;
  total_amount = sum_by (λ s. s.amount) settlements;
  total_count = length settlements;
  currency = currency;
  status = SettlementStatus.pending;
  description = o.description;
  created_by = o.created_by;
  approved_by = none;
  processed_by = none;
  approved_at = none;
  submitted_at = none;
}

unfoldable pub create_settlement_batch : ℕ → String → CreateBatchOptions → Exec Db SettlementBatch
create_settlement_batch id number o =
    try_catch
      (do
        settlements ← gets (pending_among o.settlement_ids)
        raise_if (not (length settlements == length o.settlement_ids))
            (invalid "Some settlements are not pending or do not exist")
        currency ← first_currency settlements
        batch ← create_batch (new_batch id number o settlements currency)
        update_many_outbound (listed o.settlement_ids) (λ s. record s { batch_id = some batch.id })
        pure batch)
      (λ e. raise (wrap "Failed to create settlement batch" e))

abbrev pub batch_not_found : Error
batch_not_found = app not_found "Settlement batch not found" 404

-- { where: { batchId } }, and the `settlements` of a batch
abbrev pub in_batch : ℕ → OutboundSettlement → Bool
in_batch id s = elim s.batch_id [ none ↦ Bool.false | some b ↦ b == id ]

abbrev pub batch_settlements : ℕ → Db → List OutboundSettlement
batch_settlements id db = filter (in_batch id) db.outbound

unfoldable pub approve_settlement_batch : World → ℕ → ℕ → Exec Db SettlementBatch
approve_settlement_batch w id approved_by =
    try_catch
      (do
        found ← gets (batch_by id)
        batch ← or_raise found batch_not_found
        raise_if (not (is_pending batch.status))
            (invalid ("Batch cannot be approved. Current status: " +++ status_name batch.status))
        updated ← update_batch id (λ b. record b {
          status = SettlementStatus.processing;
          approved_by = some approved_by;
          approved_at = some w.now;
        })
        update_many_outbound (in_batch id) (mark_approved w approved_by)
        pure updated)
      (λ e. raise (wrap "Failed to approve settlement batch" e))

pub record BatchResults : Type 0 where
  pub successful : ℕ
  pub failed : ℕ
  pub errors : List String

abbrev pub no_results : BatchResults
no_results = record { successful = 0; failed = 0; errors = [] }

abbrev pub count_success : BatchResults → BatchResults
count_success r = record r { successful = r.successful + 1 }

abbrev pub count_failure : World → OutboundSettlement → Error → BatchResults → BatchResults
count_failure w s e r = record r {
  failed = r.failed + 1;
  errors = r.errors ++ ("Settlement " +++ (s.reference_number +++ (": " +++ message_of w e))) ∷ [];
}

-- the body of the loop of processSettlementBatch
unfoldable pub process_one : World → ℕ → OutboundSettlement → BatchResults → Exec Db BatchResults
process_one w by s results =
    try_catch (do process_settlement w s.id by; pure (count_success results))
      (λ e. pure (count_failure w s e results))

unfoldable pub process_each :
    World → ℕ → List OutboundSettlement → BatchResults → Exec Db BatchResults
unfolding process_one
process_each w by [] results = pure results
process_each w by (s ∷ rest) results = do
  results' ← process_one w by s results
  process_each w by rest results'

unfoldable pub batch_outcome : BatchResults → SettlementStatus
batch_outcome r =
    if r.failed == 0
    then SettlementStatus.submitted
    else if r.successful == 0
    then SettlementStatus.failed
    else SettlementStatus.processing

abbrev pub mark_batch : World → ℕ → BatchResults → SettlementBatch → SettlementBatch
mark_batch w by results b = record b {
  status = batch_outcome results;
  processed_by = some by;
  submitted_at = if results.failed == 0 then some w.now else none;
}

unfoldable pub process_settlement_batch : World → ℕ → ℕ → Exec Db (SettlementBatch × BatchResults)
unfolding batch_outcome
process_settlement_batch w id processed_by =
    try_catch
      (do
        found ← gets (batch_by id)
        batch ← or_raise found batch_not_found
        raise_if (not (is_processing batch.status))
            (invalid ("Batch cannot be processed. Current status: " +++ status_name batch.status))
        settlements ← gets (batch_settlements id)
        results ← process_each w processed_by settlements no_results
        updated ← update_batch id (mark_batch w processed_by results)
        pure (updated, results))
      (λ e. raise (wrap "Failed to process settlement batch" e))
