-- ===== src/Tests/Batches.antt =====
-- Batches of payouts and their reconciliation on the small database.
use sohcahtoa_api.Prelude.{
  true, false, ℕ, ◌+◌, ◌≡◌, refl, none, some, [], ◌∷◌, if◌then◌else◌, length, ◌==◌, ◌&&◌,
}
use sohcahtoa_api.Errors.{ok}
use sohcahtoa_api.Exec.{result, after}
use sohcahtoa_api.Table.{find_unique}
use sohcahtoa_api.Store.{Db}
use sohcahtoa_api.Store.Rows.{
  ReconciliationStatus, SettlementBatch, SettlementStatus, SettlementDirection, Reconciliation,
}
use sohcahtoa_api.Store.Writes.{outbound_by, batch_by, create_batch}
use sohcahtoa_api.Payments.Outbound.Batches.{
  BatchResults, CreateBatchOptions, create_settlement_batch, approve_settlement_batch,
  process_settlement_batch, mark_batch, batch_settlements, new_batch,
}
use sohcahtoa_api.Payments.Outbound.BatchLaws.{process_batch_counts}
use sohcahtoa_api.Payments.Outbound.Creation.{
  belongs_to, IsBatched, create_batch-IsBatched, approve_batch_sets,
}
use sohcahtoa_api.Doubles.{double, minus, significant, round_half_even}
use sohcahtoa_api.Payments.Reconciliation.{
  ReconcileOptions, reconcile_settlement, actual_amount_of, ReconcileResults, reconcile_batch,
}
use sohcahtoa_api.Payments.Reconciliation.Closing.{no_amount, is_close, reconcile_closes}
use sohcahtoa_api.Table.Laws.{map_if}
use sohcahtoa_api.Payments.Reconciliation.Matching.{reconcile_batch_counts}
use sohcahtoa_api.Tests.Data.{world, payouts, settlement, batch}

abbrev active : Db
active = payouts SettlementStatus.processing

found_batch : batch_by 40 active ≡ some (batch SettlementStatus.processing)
unfolding find_unique
found_batch = refl

process_batch_counts_example :
    (r : BatchResults) × (result (process_settlement_batch world 40 9) active
      ≡ ok (mark_batch world 9 r (batch SettlementStatus.processing), r))
    × (r.successful + r.failed ≡ length (batch_settlements 40 active))
    × (length r.errors ≡ r.failed)
    × ((mark_batch world 9 r (batch SettlementStatus.processing)).status ≡ (
        if r.failed == 0
        then SettlementStatus.submitted
        else if r.successful == 0
        then SettlementStatus.failed
        else SettlementStatus.processing))
process_batch_counts_example =
    process_batch_counts world 9 40 active (batch SettlementStatus.processing) found_batch refl

abbrev waiting : Db
waiting = payouts SettlementStatus.pending

found_pending : batch_by 40 waiting ≡ some (batch SettlementStatus.pending)
unfolding find_unique
found_pending = refl

found_waiting : outbound_by 1 waiting ≡ some (settlement 1 SettlementStatus.pending (some 40))
unfolding find_unique
found_waiting = refl

approve_batch_sets_example :
    outbound_by 1 (after (approve_settlement_batch world 40 7) waiting)
    ≡ some (
        if belongs_to 40 (some 40)
        then record (settlement 1 SettlementStatus.pending (some 40)) {
          status = SettlementStatus.processing;
          approved_by = some 7;
          approved_at = some world.now;
        }
        else settlement 1 SettlementStatus.pending (some 40))
approve_batch_sets_example =
    approve_batch_sets world 40 7 waiting (batch SettlementStatus.pending) found_pending refl 1
      (settlement 1 SettlementStatus.pending (some 40)) found_waiting

abbrev both : CreateBatchOptions
both = record {
  direction = SettlementDirection.outbound;
  settlement_ids = 1 ∷ 2 ∷ [];
  description = none;
  created_by = 3;
}

abbrev made : SettlementBatch
made =
    new_batch 41 "BATCH-2" both
      (settlement 1 SettlementStatus.pending (some 40)
        ∷ settlement 2 SettlementStatus.pending none
        ∷ [])
      "USD"

made_it : result (create_settlement_batch 41 "BATCH-2" both) waiting ≡ ok made
unfolding create_settlement_batch create_batch
made_it = refl

create_batch-IsBatched_example :
    IsBatched 41 both waiting made (after (create_settlement_batch 41 "BATCH-2" both) waiting)
create_batch-IsBatched_example = create_batch-IsBatched 41 "BATCH-2" both waiting made made_it

reconcile_batch_counts_example :
    (r : ReconcileResults) × (result (reconcile_batch world (λ n. n + 500) 40) active ≡ ok r)
    × (r.matched ≡ 0)
    × (r.variance ≡ 0)
    × (r.total ≡ length (batch_settlements 40 active))
    × (r.pending + length r.errors ≡ r.total)
reconcile_batch_counts_example =
    reconcile_batch_counts world (λ n. n + 500) 40 active (batch SettlementStatus.processing)
      found_batch

abbrev report : ReconcileOptions
report = record {
  settlement_id = 1;
  actual_amount = some 2500050;
  providus_session_id = none;
  reconciled_by = 4;
  notes = none;
}

found_active : outbound_by 1 active ≡ some (settlement 1 SettlementStatus.processing (some 40))
unfolding find_unique
found_active = refl

reconcile_closes_example :
    (r : Reconciliation) × ((reconcile_settlement world 600 report active).0 ≡ ok r)
    × (r.status ≡ (
        if no_amount (actual_amount_of world report)
        then ReconciliationStatus.pending
        else if is_close (actual_amount_of world report) 2500000
        then ReconciliationStatus.matched
        else ReconciliationStatus.variance))
    × ((j : ℕ)
        → outbound_by j (reconcile_settlement world 600 report active).1
          ≡ map_if
              (is_close (actual_amount_of world report) 2500000 && (1 == j))
              (λ x. record x { status = SettlementStatus.completed; completed_at = some world.now })
              (outbound_by j active))
reconcile_closes_example =
    reconcile_closes world 600 report active (settlement 1 SettlementStatus.processing (some 40))
      found_active

-- 5.02 is close to 5.01 as a double, and 0.02 is not to 0.01
close_cents : is_close (some 50200) 50100 ≡ true
unfolding double minus significant round_half_even
close_cents = refl

far_cents : is_close (some 200) 100 ≡ false
unfolding double minus significant round_half_even
far_cents = refl
