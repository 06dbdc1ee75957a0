-- ===== src/Payments/Reconciliation/Matching.antt =====
-- When a reconciliation matches, and what a batch reconciliation reports.
use sohcahtoa_api.Prelude.{
  ℕ, ◌+◌, ◌≡◌, refl, Option, some, List, [], ◌∷◌, arith, length, Option-cases, ap, ◌∙◌,
  length-append, inl, inr,
}
use sohcahtoa_api.Errors.{ok}
use sohcahtoa_api.Exec.Laws.{continue-ok, recover-ok}
use sohcahtoa_api.Exec.{result, after}
use sohcahtoa_api.Store.{Db}
use sohcahtoa_api.Store.Rows.{OutboundSettlement, SettlementBatch, ReconciliationStatus}
use sohcahtoa_api.Store.Writes.{outbound_by, batch_by}
use sohcahtoa_api.Payments.World.{World}
use sohcahtoa_api.Payments.Outbound.{settlement_not_found}
use sohcahtoa_api.Payments.Outbound.Batches.{batch_settlements}
use sohcahtoa_api.Payments.Reconciliation.{
  variance_of, reconciliation_status, reconcile_each, ReconcileResults, open_reconciliation,
  reconcile_one, reconcile_batch, no_results, add_error, tally,
}

abbrev pub status_for : Option ℕ → ℕ → ReconciliationStatus
status_for actual expected = reconciliation_status (variance_of actual expected)

-- A reconciliation whose reported amount is 0 stays PENDING, whatever was expected.
pub zero_stays_pending :
    (expected : ℕ) → status_for (some 0) expected ≡ ReconciliationStatus.pending
unfolding variance_of reconciliation_status
zero_stays_pending expected = refl

-- the counts of a batch reconciliation after `n` more settlements
abbrev Counts : ReconcileResults → ℕ → ReconcileResults → Type 0
Counts r n r' =
    (r'.matched ≡ r.matched)
    × (r'.variance ≡ r.variance)
    × (r'.total ≡ r.total)
    × (r'.pending + length r'.errors ≡ r.pending + length r.errors + n)

module _ (w : World) (ids : ℕ → ℕ) where
  reconcile_one-Counts :
      (s : OutboundSettlement) (r : ReconcileResults) (db : Db)
      → (r' : ReconcileResults) × (result (reconcile_one w ids s r) db ≡ ok r') × Counts r 1 r'
  unfolding reconcile_one open_reconciliation
  reconcile_one-Counts s r db = elim (Option-cases (outbound_by s.id db)) [
    | inl missing ↦ (
      add_error w s settlement_not_found r,
      rw (missing, result),
      (refl, refl, refl, omega (arith, length-append r.errors)),
    )
    | inr (row, found) ↦
        (tally ReconciliationStatus.pending r, rw (found, result), (refl, refl, refl, omega arith))
  ]

  pub reconcile_each-Counts :
      (ss : List OutboundSettlement) (r : ReconcileResults) (db : Db)
      → (r' : ReconcileResults) × (result (reconcile_each w ids ss r) db ≡ ok r')
        × Counts r (length ss) r'
  unfolding reconcile_each
  reconcile_each-Counts [] r db = (r, refl, (refl, refl, refl, omega arith))
  reconcile_each-Counts (s ∷ ss) r db =
      let (r1, e1, c1) = reconcile_one-Counts s r db in
      let db1 = after (reconcile_one w ids s r) db in
      let (r2, e2, c2) = reconcile_each-Counts ss r1 db1 in
      (
        r2,
        ap (λ p. p.0)
              (continue-ok (λ x. reconcile_each w ids ss x) (reconcile_one w ids s r db) r1 e1)
            ∙ e2,
        (c2.0 ∙ c1.0, c2.1 ∙ c1.1, c2.2 ∙ c1.2, omega arith),
      )

  -- A batch reconciliation of a batch that exists always returns; it counts nothing as matched and
  -- nothing as variance, and counts each settlement once, as pending or as an error.
  pub reconcile_batch_counts :
      (id : ℕ) (db : Db) (b : SettlementBatch)
      → batch_by id db ≡ some b
      → (r : ReconcileResults) × (result (reconcile_batch w ids id) db ≡ ok r)
        × (r.matched ≡ 0)
        × (r.variance ≡ 0)
        × (r.total ≡ length (batch_settlements id db))
        × (r.pending + length r.errors ≡ r.total)
  unfolding reconcile_batch
  reconcile_batch_counts id db b found =
      let (r, e, c) =
        reconcile_each-Counts (batch_settlements id db)
          (no_results (length (batch_settlements id db))) db in
      (
        r,
        rw (found, result)
            (ap (λ p. p.0)
              (recover-ok _
                (reconcile_each w ids (batch_settlements id db)
                  (no_results (length (batch_settlements id db))) db)
                r e)),
        c.0,
        c.1,
        c.2,
        omega arith,
      )
