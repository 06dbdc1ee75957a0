-- ===== src/Payments/Reconciliation/Closing.antt =====
-- What the reconciliation of a settlement leaves in the database.
use sohcahtoa_api.Prelude.{
  ℕ, ◌≡◌, refl, ap, sym, ◌∙◌, Bool, true, false, Option, none, some, [], ◌∷◌, ◌++◌, ◌==◌, ◌&&◌, ℤ,
  Option-cases, Bool-cases, inl, inr, not, ltb, nat_abs, if◌then◌else◌,
}
use sohcahtoa_api.Errors.{ok}
use sohcahtoa_api.Table.{find_unique, modify_unique}
use sohcahtoa_api.Table.Laws.{find_unique-exists, map_if, map_if-false}
use sohcahtoa_api.Store.{Db}
use sohcahtoa_api.Store.Rows.{
  OutboundSettlement, Reconciliation, ReconciliationType, ReconciliationStatus, SettlementStatus,
}
use sohcahtoa_api.Doubles.{double, minus}
use sohcahtoa_api.Store.Writes.{outbound_by, update_reconciliation}
use sohcahtoa_api.Store.Laws.{set_outbound, update_outbound-some, outbound_by-set_outbound}
use sohcahtoa_api.Payments.World.{World}
use sohcahtoa_api.Payments.Reconciliation.{
  judged, pending_record, ReconcileOptions, reconcile_settlement, save_reconciliation,
  close_if_matched, actual_amount_of, variance_of, reconciliation_status, is_matched,
  mark_reconciled, reconciliation_of,
}

abbrev pub no_amount : Option ℕ → Bool
no_amount none = true
no_amount (some a) = a == 0

-- an amount other than 0 that is less than 0.01 away, as doubles
abbrev pub is_close : Option ℕ → ℕ → Bool
is_close none expected = false
is_close (some a) expected =
    not (a == 0) && ltb (nat_abs (minus (double a) (double expected))) (double 100)

status_lem :
    (actual : Option ℕ) (expected : ℕ)
    → reconciliation_status (variance_of actual expected) ≡ (
        if no_amount actual
        then ReconciliationStatus.pending
        else if is_close actual expected
        then ReconciliationStatus.matched
        else ReconciliationStatus.variance)
unfolding reconciliation_status variance_of
status_lem none expected = refl
status_lem (some a) expected = elim (Bool-cases (a == 0)) [
  | inl empty ↦ rw empty
  | inr more ↦ rw more
]

matched_lem :
    (actual : Option ℕ) (expected : ℕ)
    → is_matched (reconciliation_status (variance_of actual expected)) ≡ is_close actual expected
unfolding reconciliation_status variance_of
matched_lem none expected = refl
matched_lem (some a) expected = elim (Bool-cases (a == 0)) [
  | inl empty ↦ rw empty
  | inr more ↦
      rw more (elim (Bool-cases (ltb (nat_abs (minus (double a) (double expected))) (double 100))) [
        | inl near ↦ rw near
        | inr far ↦ rw far
      ])
]

module _ (w : World) (id : ℕ) (o : ReconcileOptions) (s : OutboundSettlement) (actual : Option ℕ)
    (v : Option ℤ) (db : Db) where
  -- The record is saved, with the status of its variance; the settlements stay.
  save_lem :
      (r : Reconciliation) × (db' : Db) × (save_reconciliation w id o s actual v db ≡ (ok r, db'))
      × (r.status ≡ reconciliation_status v)
      × (db'.outbound ≡ db.outbound)
  unfolding save_reconciliation update_reconciliation
  save_lem = elim (Option-cases (reconciliation_of o.settlement_id db)) [
    | inl new ↦
        let type : ReconciliationType = elim o.providus_session_id [
          | none ↦ ReconciliationType.manual
          | some _ ↦ ReconciliationType.providus_verify
        ] in
        let row = judged w o actual v (pending_record id type s) in
        (row, record db { reconciliations = db.reconciliations ++ row ∷ [] }, rw new, refl, refl)
    | inr (old, there) ↦
        let (row, found) =
          find_unique-exists (λ x. x.settlement_id) (λ x. x.id) o.settlement_id db.reconciliations
            old there in
        (
          judged w o actual v row,
          record db {
            reconciliations =
                modify_unique (λ x. x.id) old.id (judged w o actual v) db.reconciliations;
          },
          rw there (rw found),
          refl,
          refl,
        )
  ]

module _ (w : World) (id : ℕ) (o : ReconcileOptions) (db : Db) (s : OutboundSettlement)
    (found : outbound_by o.settlement_id db ≡ some s) where
  abbrev actual : Option ℕ
  actual = actual_amount_of w o

  abbrev variance : Option ℤ
  variance = variance_of actual s.amount

  abbrev matched : Bool
  matched = is_matched (reconciliation_status variance)

  -- The settlement is closed if the amounts match.
  close_lem :
      (b : Bool) (db' : Db)
      → db'.outbound ≡ db.outbound
      → (db'' : Db) × (close_if_matched w o.settlement_id b db' ≡ (ok tt, db''))
        × ((j : ℕ)
            → outbound_by j db''
              ≡ map_if (b && (o.settlement_id == j)) (mark_reconciled w) (outbound_by j db))
  unfolding close_if_matched
  close_lem false db' same = (
    db',
    refl,
    λ j.
        ap (find_unique (λ x. x.id) j) same
        ∙ sym (map_if-false (mark_reconciled w) (outbound_by j db)),
  )
  close_lem true db' same =
      let there : outbound_by o.settlement_id db' ≡ some s =
        ap (find_unique (λ x. x.id) o.settlement_id) same ∙ found in
      (
        set_outbound o.settlement_id (mark_reconciled w) db',
        rw (update_outbound-some o.settlement_id (mark_reconciled w) db' s there),
        λ j.
            outbound_by-set_outbound o.settlement_id j (mark_reconciled w) db' (λ x. refl)
            ∙ ap
                (λ l.
                  map_if (o.settlement_id == j) (mark_reconciled w) (find_unique (λ x. x.id) j l))
                same,
      )

  -- Reconciling a settlement that exists returns a record, whether or not there was one before. It
  -- is PENDING without an amount that was paid, or with 0, MATCHED if the difference of that
  -- amount and the settlement's, as doubles, is below 0.01, and VARIANCE otherwise. The settlement
  -- becomes COMPLETED, at that time, exactly in the second case, and all other settlements stay as
  -- they were.
  pub reconcile_closes :
      (r : Reconciliation) × ((reconcile_settlement w id o db).0 ≡ ok r)
      × (r.status ≡ (
          if no_amount (actual_amount_of w o)
          then ReconciliationStatus.pending
          else if is_close (actual_amount_of w o) s.amount
          then ReconciliationStatus.matched
          else ReconciliationStatus.variance))
      × ((j : ℕ)
          → outbound_by j (reconcile_settlement w id o db).1
            ≡ map_if
                (is_close (actual_amount_of w o) s.amount && (o.settlement_id == j))
                (λ x. record x { status = SettlementStatus.completed; completed_at = some w.now })
                (outbound_by j db))
  unfolding reconcile_settlement
  reconcile_closes =
      let (r, db', saved, status, kept) = save_lem w id o s actual variance db in
      let (db'', closed, others) = close_lem matched db' kept in
      let whole : reconcile_settlement w id o db ≡ (ok r, db'') = rw found (rw saved (rw closed)) in
      (
        r,
        ap (λ p. p.0) whole,
        status ∙ status_lem actual s.amount,
        λ j.
            ap (λ p. outbound_by j p.1) whole
            ∙ others j
            ∙ ap (λ b. map_if (b && (o.settlement_id == j)) (mark_reconciled w) (outbound_by j db))
                (matched_lem actual s.amount),
      )
