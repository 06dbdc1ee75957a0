-- ===== src/Payments/Outbound/BatchLaws.antt =====
-- What the batch operations of the settlement service do.
use sohcahtoa_api.Prelude.{
  ℕ, ◌+◌, ◌≡◌, refl, ap, ◌∙◌, true, some, List, [], ◌∷◌, arith, ◌==◌, length, length-append, inl,
  inr, if◌then◌else◌,
}
use sohcahtoa_api.Errors.{ok, Result-cases}
use sohcahtoa_api.Exec.{result, after}
use sohcahtoa_api.Exec.Laws.{continue-ok, try-ok, try-err}
use sohcahtoa_api.Store.{Db}
use sohcahtoa_api.Store.Rows.{OutboundSettlement, SettlementBatch, SettlementStatus}
use sohcahtoa_api.Store.Writes.{batch_by, update_batch}
use sohcahtoa_api.Payments.World.{World}
use sohcahtoa_api.Payments.Outbound.Status.{is_processing}
use sohcahtoa_api.Table.{find_unique}
use sohcahtoa_api.Payments.Outbound.Cases.{batches-process}
use sohcahtoa_api.Payments.Outbound.{process_settlement}
use sohcahtoa_api.Payments.Outbound.Batches.{
  mark_batch, no_results, BatchResults, process_one, process_each, process_settlement_batch,
  count_success, count_failure, batch_settlements, batch_outcome,
}

abbrev Counts : BatchResults → ℕ → BatchResults → Type 0
Counts r n r' =
    (r'.successful + r'.failed ≡ r.successful + r.failed + n)
    × (length r'.errors + r.failed ≡ length r.errors + r'.failed)

module _ (w : World) (by : ℕ) where
  process_one-Counts :
      (s : OutboundSettlement) (r : BatchResults) (db : Db)
      → (r' : BatchResults) × (result (process_one w by s r) db ≡ ok r') × Counts r 1 r'
  unfolding process_one
  process_one-Counts s r db = elim (Result-cases (result (process_settlement w s.id by) db)) [
    | inl (u, e) ↦ (
      count_success r,
      ap (λ p. p.0) (try-ok _ _ (process_settlement w s.id by db) u e),
      (omega arith, omega arith),
    )
    | inr (x, e) ↦ (
      count_failure w s x r,
      ap (λ p. p.0) (try-err _ _ (process_settlement w s.id by db) x e),
      (omega arith, omega (arith, length-append r.errors)),
    )
  ]

  process_each-Counts :
      (ss : List OutboundSettlement) (r : BatchResults) (db : Db)
      → (r' : BatchResults) × (result (process_each w by ss r) db ≡ ok r') × Counts r (length ss) r'
  unfolding process_each
  process_each-Counts [] r db = (r, refl, (omega arith, omega arith))
  process_each-Counts (s ∷ ss) r db =
      let (r1, e1, c1) = process_one-Counts s r db in
      let (r2, e2, c2) = process_each-Counts ss r1 (after (process_one w by s r) db) in
      (
        r2,
        ap (λ p. p.0) (continue-ok (λ x. process_each w by ss x) (process_one w by s r db) r1 e1)
            ∙ e2,
        (omega arith, omega arith),
      )

  batches-process_one :
      (s : OutboundSettlement) (r : BatchResults) (db : Db)
      → (after (process_one w by s r) db).batches ≡ db.batches
  unfolding process_one
  batches-process_one s r db = elim (Result-cases (result (process_settlement w s.id by) db)) [
    | inl (u, e) ↦
        ap (λ p. p.1.batches) (try-ok _ _ (process_settlement w s.id by db) u e)
        ∙ batches-process w s.id by db
    | inr (x, e) ↦
        ap (λ p. p.1.batches) (try-err _ _ (process_settlement w s.id by db) x e)
        ∙ batches-process w s.id by db
  ]

  batches-process_each :
      (ss : List OutboundSettlement) (r : BatchResults) (db : Db)
      → (after (process_each w by ss r) db).batches ≡ db.batches
  unfolding process_each
  batches-process_each [] r db = refl
  batches-process_each (s ∷ ss) r db =
      let (r1, e1, c1) = process_one-Counts s r db in
      ap (λ p. p.1.batches)
        (continue-ok (λ x. process_each w by ss x) (process_one w by s r db) r1 e1)
      ∙ batches-process_each ss r1 (after (process_one w by s r) db)
      ∙ batches-process_one s r db

  -- Processing a batch that exists and is PROCESSING returns: every settlement is counted once, as
  -- successful or as failed, each failure has its message, and the batch ends SUBMITTED if none
  -- failed, FAILED if all of them did, and PROCESSING otherwise.
  pub process_batch_counts :
      (id : ℕ) (db : Db) (b : SettlementBatch)
      → batch_by id db ≡ some b
      → is_processing b.status ≡ true
      → (r : BatchResults) × (result (process_settlement_batch w id by) db
          ≡ ok (mark_batch w by r b, r))
        × (r.successful + r.failed ≡ length (batch_settlements id db))
        × (length r.errors ≡ r.failed)
        × ((mark_batch w by r b).status ≡ (
            if r.failed == 0
            then SettlementStatus.submitted
            else if r.successful == 0
            then SettlementStatus.failed
            else SettlementStatus.processing))
  unfolding process_settlement_batch update_batch
  process_batch_counts id db b found processing =
      let ss = batch_settlements id db in
      let (r, e, c) = process_each-Counts ss no_results db in
      let kept : batch_by id (after (process_each w by ss no_results) db) ≡ some b =
        ap (find_unique (λ x. x.id) id) (batches-process_each ss no_results db) ∙ found in
      (
        r,
        rw (found, result)
            (rw processing (
              ap (λ p. p.0) (try-ok _ _ (process_each w by ss no_results db) r e)
              ∙ rw (kept, result))),
        omega arith,
        omega arith,
        unfold batch_outcome in refl,
      )
