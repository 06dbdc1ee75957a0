-- ===== src/Payments/Outbound/Cases.antt =====
-- What processing a settlement does, branch by branch.
use sohcahtoa_api.Prelude.{
  ℕ, ◌≡◌, ◌≢◌, inl, inr, refl, sym, subst, ap, ◌∙◌, true, false, Option, none, some, arith,
  Bool-cases, Option-cases, if◌then◌else◌,
}
use sohcahtoa_api.Errors.{
  Error, Result, Result-cases, ok, err, succeeds, prisma, record_not_found, wrap,
}
use sohcahtoa_api.Exec.{result, after}
use sohcahtoa_api.Table.{find_unique}
use sohcahtoa_api.Exec.Laws.{continue-ok, continue-err}
use sohcahtoa_api.Store.{Db}
use sohcahtoa_api.Store.Rows.{OutboundSettlement, SettlementStatus}
use sohcahtoa_api.Store.Writes.{outbound_by}
use sohcahtoa_api.Store.Laws.{
  set_outbound, update_outbound-some, update_outbound-none, outbound_by-set_outbound_self,
  outbound_by-set_outbound_ne,
}
use sohcahtoa_api.Payments.World.{World, send_notification}
use sohcahtoa_api.Payments.Outbound.Status.{is_processing, is_pending}
use sohcahtoa_api.Payments.Outbound.{
  approve_settlement, process_settlement, submit_settlement, fail_settlement, notify_processed,
  mark_submitted, mark_failed, mark_approved, cannot_process, cannot_approve, settlement_not_found,
}

pub outbound-notify_processed :
    (w : World) (t : Option ℕ) (db : Db) → (after (notify_processed w t) db).outbound ≡ db.outbound
unfolding notify_processed send_notification
outbound-notify_processed w none db = refl
outbound-notify_processed w (some t) db = ground arith

pub batches-notify_processed :
    (w : World) (t : Option ℕ) (db : Db) → (after (notify_processed w t) db).batches ≡ db.batches
unfolding notify_processed send_notification
batches-notify_processed w none db = refl
batches-notify_processed w (some t) db = ground arith

module _ (w : World) (id by : ℕ) (db : Db) where
  pub process_missing :
      outbound_by id db ≡ none → process_settlement w id by db ≡ (err (prisma record_not_found), db)
  unfolding process_settlement submit_settlement fail_settlement
  process_missing h = rw h (rw (update_outbound-none id _ db h))

  module _ (s : OutboundSettlement) (found : outbound_by id db ≡ some s) where
    -- Processing a settlement that is not PROCESSING throws and marks it FAILED.
    pub process_refused :
        is_processing s.status ≡ false
        → process_settlement w id by db ≡ (
          err (cannot_process s.status),
          set_outbound id (mark_failed w (cannot_process s.status)) db,
        )
    unfolding process_settlement submit_settlement fail_settlement
    process_refused h = rw found (rw h (rw (update_outbound-some id _ db s found)))

    abbrev submitted_db : Db
    submitted_db = set_outbound id (mark_submitted w by) db

    found_submitted : outbound_by id submitted_db ≡ some (mark_submitted w by s)
    found_submitted = outbound_by-set_outbound_self id (mark_submitted w by) db (λ r. refl) s found

    abbrev notified_db : Db
    notified_db = after (notify_processed w s.transaction_id) submitted_db

    found_unsent : outbound_by id notified_db ≡ some (mark_submitted w by s)
    found_unsent =
        ap (find_unique (λ r. r.id) id) (outbound-notify_processed w s.transaction_id submitted_db)
        ∙ found_submitted

    -- Processing a settlement that is PROCESSING submits it, if the notification goes out.
    pub process_submits :
        is_processing s.status ≡ true
        → result (notify_processed w s.transaction_id) submitted_db ≡ ok tt
        → process_settlement w id by db ≡ (ok (mark_submitted w by s), notified_db)
    unfolding process_settlement submit_settlement
    process_submits h sent = rw found (
        rw h (
          rw (update_outbound-some id _ db s found)
            (rw (continue-ok _ (notify_processed w s.transaction_id submitted_db) tt sent))))

    -- If the notification fails, the settlement is FAILED although it was submitted.
    pub process_unsent :
        (e : Error)
        → is_processing s.status ≡ true
        → result (notify_processed w s.transaction_id) submitted_db ≡ err e
        → process_settlement w id by db ≡ (
          err (wrap "Failed to process settlement" e),
          set_outbound id (mark_failed w e) notified_db,
        )
    unfolding process_settlement submit_settlement fail_settlement
    process_unsent e h failed = rw found (
        rw h (
          rw (update_outbound-some id _ db s found) (
            rw (continue-err _ (notify_processed w s.transaction_id submitted_db) e failed)
              (rw (update_outbound-some id (mark_failed w e) notified_db _ found_unsent)))))

    -- Every call of processSettlement on a settlement that exists is one of three cases.
    pub process_cases :
        (P : Result OutboundSettlement × Db → Type 0)
        → (is_processing s.status ≡ false
            → P (
              err (cannot_process s.status),
              set_outbound id (mark_failed w (cannot_process s.status)) db,
            ))
        → (is_processing s.status ≡ true → P (ok (mark_submitted w by s), notified_db))
        → ((e : Error)
            → is_processing s.status ≡ true
            → P (
              err (wrap "Failed to process settlement" e),
              set_outbound id (mark_failed w e) notified_db,
            ))
        → P (process_settlement w id by db)
    process_cases P refused submits unsent = elim (Bool-cases (is_processing s.status)) [
      | inr h ↦ subst P (sym (process_refused h)) (refused h)
      | inl h ↦ elim (Result-cases (result (notify_processed w s.transaction_id) submitted_db)) [
        | inl (_, sent) ↦ subst P (sym (process_submits h sent)) (submits h)
        | inr (e, failed) ↦ subst P (sym (process_unsent e h failed)) (unsent e h)
      ]
    ]

    abbrev Ends : Result OutboundSettlement × Db → Type 0
    Ends p =
        (row : OutboundSettlement) × (outbound_by id p.1 ≡ some row)
        × (row.status
            ≡ (if succeeds p.0 then SettlementStatus.submitted else SettlementStatus.failed))

    -- Processing a settlement that exists leaves it SUBMITTED if the call succeeds, and FAILED if it
    -- throws, whatever its status was before.
    pub process_outcome :
        (row : OutboundSettlement) × (outbound_by id (process_settlement w id by db).1 ≡ some row)
        × (row.status ≡ (
            if succeeds (process_settlement w id by db).0
            then SettlementStatus.submitted
            else SettlementStatus.failed))
    process_outcome =
        process_cases Ends
          (λ h. (
            _,
            outbound_by-set_outbound_self id (mark_failed w (cannot_process s.status)) db
                (λ r. refl) s found,
            refl,
          ))
          (λ h. (_, found_unsent, refl))
          (λ e h. (
            _,
            outbound_by-set_outbound_self id (mark_failed w e) notified_db (λ r. refl) _
                found_unsent,
            refl,
          ))

    abbrev LeavesOthers : Result OutboundSettlement × Db → Type 0
    LeavesOthers p = (j : ℕ) → id ≢ j → outbound_by j p.1 ≡ outbound_by j db

    submitted_others : (j : ℕ) → id ≢ j → outbound_by j notified_db ≡ outbound_by j db
    submitted_others j ne =
        ap (find_unique (λ r. r.id) j) (outbound-notify_processed w s.transaction_id submitted_db)
        ∙ outbound_by-set_outbound_ne id j (mark_submitted w by) db (λ r. refl) ne

    -- Processing a settlement that exists leaves every other settlement as it was.
    pub process_others :
        (j : ℕ) → id ≢ j → outbound_by j (process_settlement w id by db).1 ≡ outbound_by j db
    process_others =
        process_cases LeavesOthers
          (λ h j ne.
            outbound_by-set_outbound_ne id j (mark_failed w (cannot_process s.status)) db
              (λ r. refl) ne)
          (λ h j ne. submitted_others j ne)
          (λ e h j ne.
            outbound_by-set_outbound_ne id j (mark_failed w e) notified_db (λ r. refl) ne
            ∙ submitted_others j ne)

  -- approveSettlement, in all cases: it throws and writes nothing, unless the settlement is there
  -- and PENDING; then it becomes PROCESSING with the approver and the time on it.
  pub approve_lem : approve_settlement w id by db ≡ elim (outbound_by id db) [
    | none ↦ (err settlement_not_found, db)
    | some s ↦
        if is_pending s.status
        then (ok (mark_approved w by s), set_outbound id (mark_approved w by) db)
        else (err (cannot_approve s.status), db)
  ]
  unfolding approve_settlement
  approve_lem = elim (Option-cases (outbound_by id db)) [
    | inl missing ↦ rw missing
    | inr (s, found) ↦ elim (Bool-cases (is_pending s.status)) [
      | inl h ↦ rw found (rw h (rw (update_outbound-some id (mark_approved w by) db s found)))
      | inr h ↦ rw found (rw h)
    ]
  ]

  -- Processing a settlement does not touch the batches.
  pub batches-process : (after (process_settlement w id by) db).batches ≡ db.batches
  batches-process = elim (Option-cases (outbound_by id db)) [
    | inl missing ↦ ap (λ p. p.1.batches) (process_missing missing)
    | inr (s, found) ↦
        process_cases s found (λ p. p.1.batches ≡ db.batches) (λ h. refl)
          (λ h. batches-notify_processed w s.transaction_id (submitted_db s found))
          (λ e h. batches-notify_processed w s.transaction_id (submitted_db s found))
  ]
