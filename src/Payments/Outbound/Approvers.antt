-- ===== src/Payments/Outbound/Approvers.antt =====
-- The methods of settlement.service.ts keep it that payouts under way have an approver.
use sohcahtoa_api.Prelude.{
  ℕ, ◌≡◌, refl, sym, subst, true, Bool, Option, none, some, List, [], ◌∷◌, arith, String, is_some,
  Option-cases, inl, inr,
}
use sohcahtoa_api.Exec.{after}
use sohcahtoa_api.Exec.Keeps.{Keeps, Keeps-bind, keeps_rules}
use sohcahtoa_api.Store.Laws.{set_outbound}
use sohcahtoa_api.Store.{Db}
use sohcahtoa_api.Store.Rows.{OutboundSettlement, SettlementStatus}
use sohcahtoa_api.Store.Writes.{outbound_by, update_outbound, update_many_outbound}
use sohcahtoa_api.Payments.World.{World}
use sohcahtoa_api.Payments.Outbound.Status.{is_processing}
use sohcahtoa_api.Payments.Outbound.{
  process_settlement, approve_settlement, complete_settlement, complete_transaction, mark_completed,
  mark_approved, mark_submitted, mark_failed, cannot_process, notify_processed,
}
use sohcahtoa_api.Payments.Outbound.Cases.{
  process_cases, process_missing, outbound-notify_processed,
}
use sohcahtoa_api.Payments.Outbound.Batches.{
  CreateBatchOptions, create_settlement_batch, approve_settlement_batch, process_settlement_batch,
  process_one, process_each, BatchResults, first_currency,
}
use sohcahtoa_api.Payments.Outbound.Approval.{
  is_live, Inv, Inv-transfer, set_outbound-Inv, update_outbound-Inv, update_transaction-Inv,
  update_batch-Inv, create_batch-Inv, update_many-Inv,
}

update_approved-Inv : (w : World) (id by : ℕ) → Keeps Inv (update_outbound id (mark_approved w by))
update_approved-Inv w id by =
    update_outbound-Inv id (mark_approved w by) (λ s. refl) (λ s _ _. refl)

update_completed-Inv :
    (w : World) (id : ℕ) (proof : Option String)
    → Keeps Inv (update_outbound id (mark_completed w proof))
update_completed-Inv w id proof =
    update_outbound-Inv id (mark_completed w proof) (λ s. refl) (λ s _ e. absurd (ground arith))

first_currency-Inv : (ss : List OutboundSettlement) → Keeps Inv (first_currency ss)
first_currency-Inv [] = record { at = λ db h. h }
first_currency-Inv (s ∷ ss) = record { at = λ db h. h }

approve_many-Inv :
    (w : World) (p : OutboundSettlement → Bool) (by : ℕ)
    → Keeps Inv (update_many_outbound p (mark_approved w by))
approve_many-Inv w p by = update_many-Inv p (mark_approved w by) (λ s. refl) (λ s _ _. refl)

link_many-Inv :
    (p : OutboundSettlement → Bool) (b : ℕ)
    → Keeps Inv (update_many_outbound p (λ s. record s { batch_id = some b }))
link_many-Inv p b = update_many-Inv p (λ s. record s { batch_id = some b }) (λ s. refl) (λ s q. q)

pub approve-Inv : (w : World) (id by : ℕ) → Keeps Inv (approve_settlement w id by)
unfolding approve_settlement
approve-Inv w id by = search (keeps_rules, update_approved-Inv)

complete_transaction-Inv : (w : World) (t : Option ℕ) → Keeps Inv (complete_transaction w t)
unfolding complete_transaction
complete_transaction-Inv w none = search keeps_rules
complete_transaction-Inv w (some t) = search (keeps_rules, update_transaction-Inv)

pub complete-Inv :
    (w : World) (id : ℕ) (proof : Option String) → Keeps Inv (complete_settlement w id proof)
unfolding complete_settlement
complete-Inv w id proof = search (keeps_rules, complete_transaction-Inv, update_completed-Inv)

live_of_processing : (st : SettlementStatus) → is_processing st ≡ true → is_live st ≡ true
live_of_processing SettlementStatus.processing e = refl
live_of_processing SettlementStatus.requires_approval e = absurd (ground arith)
live_of_processing SettlementStatus.submitted e = refl
live_of_processing SettlementStatus.pending e = absurd (ground arith)
live_of_processing SettlementStatus.completed e = absurd (ground arith)
live_of_processing SettlementStatus.failed e = absurd (ground arith)
live_of_processing SettlementStatus.cancelled e = absurd (ground arith)

pub process-Inv : (w : World) (id by : ℕ) → Keeps Inv (process_settlement w id by)
process-Inv w id by = record {
  at = λ db h. elim (Option-cases (outbound_by id db)) [
    | inl missing ↦ subst (λ p. Inv p.1) (sym (process_missing w id by db missing)) h
    | inr (s, found) ↦
        let approved_of =
          λ (r : OutboundSettlement) (there : outbound_by id db ≡ some r)
              (live : is_processing s.status ≡ true).
            let same : s ≡ r = ground arith in
            subst (λ x. is_some x.approved_by ≡ true) same
              (h.rows.at id s found (live_of_processing s.status live)) in
        let notified = λ (d : Db). after (notify_processed w s.transaction_id) d in
        let submitted = λ (live : is_processing s.status ≡ true).
          Inv-transfer (set_outbound id (mark_submitted w by) db)
            (notified (set_outbound id (mark_submitted w by) db))
            (outbound-notify_processed w s.transaction_id
              (set_outbound id (mark_submitted w by) db))
            (set_outbound-Inv id (mark_submitted w by) db (λ r. refl)
              (λ r there _ _. approved_of r there live) h) in
        process_cases w id by db s found (λ p. Inv p.1)
          (λ _.
            set_outbound-Inv id (mark_failed w (cannot_process s.status)) db (λ r. refl)
              (λ r _ _ e. absurd (ground arith)) h)
          submitted
          (λ e live.
            set_outbound-Inv id (mark_failed w e) _ (λ r. refl) (λ r _ _ x. absurd (ground arith))
              (submitted live))
  ];
}

pub create_batch_settlements-Inv :
    (id : ℕ) (number : String) (o : CreateBatchOptions)
    → Keeps Inv (create_settlement_batch id number o)
unfolding create_settlement_batch
create_batch_settlements-Inv id number o =
    search (keeps_rules, first_currency-Inv, create_batch-Inv, link_many-Inv) depth 14

pub approve_batch-Inv : (w : World) (id by : ℕ) → Keeps Inv (approve_settlement_batch w id by)
unfolding approve_settlement_batch
approve_batch-Inv w id by = search (keeps_rules, approve_many-Inv, update_batch-Inv) depth 14

process_one-Inv :
    (w : World) (by : ℕ) (s : OutboundSettlement) (r : BatchResults)
    → Keeps Inv (process_one w by s r)
unfolding process_one
process_one-Inv w by s r = search (keeps_rules, process-Inv) depth 8

process_each-Inv :
    (w : World) (by : ℕ) (ss : List OutboundSettlement) (r : BatchResults)
    → Keeps Inv (process_each w by ss r)
unfolding process_each
process_each-Inv w by [] r = record { at = λ db h. h }
process_each-Inv w by (s ∷ ss) r =
    Keeps-bind (process_one w by s r) (λ r'. process_each w by ss r') (process_one-Inv w by s r)
      (λ r'. process_each-Inv w by ss r')

pub process_batch-Inv : (w : World) (id by : ℕ) → Keeps Inv (process_settlement_batch w id by)
unfolding process_settlement_batch
process_batch-Inv w id by = search (keeps_rules, process_each-Inv, update_batch-Inv) depth 14
