-- ===== src/Payments/History.antt =====
-- The payout services called in any order: settlement.service.ts and
-- settlement-reconciliation.service.ts over one database.
use sohcahtoa_api.Prelude.{
  ℕ, ◌≡◌, refl, true, false, Bool, Option, some, List, [], ◌∷◌, arith, is_some, String, ℤ,
  Option-cases, inl, inr,
}
use sohcahtoa_api.Exec.{after}
use sohcahtoa_api.Exec.Keeps.{Keeps, Keeps-bind, keeps_rules}
use sohcahtoa_api.Store.{Db}
use sohcahtoa_api.Store.Rows.{OutboundSettlement, ReconciliationType}
use sohcahtoa_api.Store.Writes.{outbound_by, update_outbound}
use sohcahtoa_api.Payments.World.{World}
use sohcahtoa_api.Payments.Outbound.{
  process_settlement, approve_settlement, complete_settlement, create_outbound_settlement,
  CreateSettlementOptions,
}
use sohcahtoa_api.Payments.Outbound.Batches.{
  CreateBatchOptions, create_settlement_batch, approve_settlement_batch, process_settlement_batch,
}
use sohcahtoa_api.Payments.Outbound.Approval.{
  Inv, Inv-empty, is_live, update_outbound-Inv, create-Inv, update_reconciliation-Inv,
  create_reconciliation-Inv,
}
use sohcahtoa_api.Payments.Outbound.Approvers.{
  approve-Inv, complete-Inv, process-Inv, create_batch_settlements-Inv, approve_batch-Inv,
  process_batch-Inv,
}
use sohcahtoa_api.Payments.Reconciliation.{
  ReconcileOptions, ReconcileResults, open_reconciliation, reconcile_settlement, reconcile_batch,
  resolve_variance, reconcile_one, reconcile_each, save_reconciliation, reconciliation_of,
  close_if_matched, mark_reconciled,
}

-- A call of a method of the two services, with its arguments.
pub data Call : Type 0 where
  create : ℕ → String → CreateSettlementOptions → Call
  approve : ℕ → ℕ → Call
  process : ℕ → ℕ → Call
  complete : ℕ → Option String → Call
  create_batch : ℕ → String → CreateBatchOptions → Call
  approve_batch : ℕ → ℕ → Call
  process_batch : ℕ → ℕ → Call
  start : ℕ → ReconciliationType → ℕ → Call
  reconcile : ℕ → ReconcileOptions → Call
  reconcile_all : (ℕ → ℕ) → ℕ → Call
  resolve : ℕ → String → ℕ → Call

-- The database after a call, which may have thrown.
unfoldable pub step : World → Call → Db → Db
step w (create id ref o) = after (create_outbound_settlement id ref o)
step w (approve id by) = after (approve_settlement w id by)
step w (process id by) = after (process_settlement w id by)
step w (complete id proof) = after (complete_settlement w id proof)
step w (create_batch id number o) = after (create_settlement_batch id number o)
step w (approve_batch id by) = after (approve_settlement_batch w id by)
step w (process_batch id by) = after (process_settlement_batch w id by)
step w (start id type s) = after (open_reconciliation id type s)
step w (reconcile id o) = after (reconcile_settlement w id o)
step w (reconcile_all ids b) = after (reconcile_batch w ids b)
step w (resolve id text by) = after (resolve_variance w id text by)

-- Each call is made in a world of its own: the clock and the other services change.
unfoldable pub run : List (World × Call) → Db → Db
unfolding step
run [] db = db
run ((w, c) ∷ cs) db = run cs (step w c db)

open-Inv : (id : ℕ) (type : ReconciliationType) (s : ℕ) → Keeps Inv (open_reconciliation id type s)
unfolding open_reconciliation
open-Inv id type s = search (keeps_rules, create_reconciliation-Inv) depth 8

update_reconciled-Inv : (w : World) (id : ℕ) → Keeps Inv (update_outbound id (mark_reconciled w))
update_reconciled-Inv w id =
    update_outbound-Inv id (mark_reconciled w) (λ s. refl) (λ s _ e. absurd (ground arith))

close-Inv : (w : World) (id : ℕ) (b : Bool) → Keeps Inv (close_if_matched w id b)
unfolding close_if_matched
close-Inv w id false = search keeps_rules
close-Inv w id true = search (keeps_rules, update_reconciled-Inv)

save-Inv :
    (w : World) (id : ℕ) (o : ReconcileOptions) (s : OutboundSettlement) (actual : Option ℕ)
    (v : Option ℤ)
    → Keeps Inv (save_reconciliation w id o s actual v)
unfolding save_reconciliation
save-Inv w id o s actual v = record {
  at = λ db h. elim (Option-cases (reconciliation_of o.settlement_id db)) [
    | inl none_yet ↦ rw none_yet ((create_reconciliation-Inv _).at db h)
    | inr (r, found) ↦ rw found ((update_reconciliation-Inv r.id _).at db h)
  ];
}

reconcile-Inv :
    (w : World) (id : ℕ) (o : ReconcileOptions) → Keeps Inv (reconcile_settlement w id o)
unfolding reconcile_settlement
reconcile-Inv w id o = search (keeps_rules, save-Inv, close-Inv) depth 14

reconcile_one-Inv :
    (w : World) (ids : ℕ → ℕ) (s : OutboundSettlement) (r : ReconcileResults)
    → Keeps Inv (reconcile_one w ids s r)
unfolding reconcile_one
reconcile_one-Inv w ids s r = search (keeps_rules, open-Inv) depth 8

reconcile_each-Inv :
    (w : World) (ids : ℕ → ℕ) (ss : List OutboundSettlement) (r : ReconcileResults)
    → Keeps Inv (reconcile_each w ids ss r)
unfolding reconcile_each
reconcile_each-Inv w ids [] r = record { at = λ db h. h }
reconcile_each-Inv w ids (s ∷ ss) r =
    Keeps-bind (reconcile_one w ids s r) (λ r'. reconcile_each w ids ss r')
      (reconcile_one-Inv w ids s r) (λ r'. reconcile_each-Inv w ids ss r')

reconcile_batch-Inv : (w : World) (ids : ℕ → ℕ) (b : ℕ) → Keeps Inv (reconcile_batch w ids b)
unfolding reconcile_batch
reconcile_batch-Inv w ids b = search (keeps_rules, reconcile_each-Inv) depth 14

resolve-Inv :
    (w : World) (id : ℕ) (text : String) (by : ℕ) → Keeps Inv (resolve_variance w id text by)
unfolding resolve_variance
resolve-Inv w id text by = search (keeps_rules, update_reconciliation-Inv) depth 8

-- Every call keeps it that a settlement that is PROCESSING or SUBMITTED has an approver.
step-Inv : (w : World) (c : Call) (db : Db) → Inv db → Inv (step w c db)
unfolding step
step-Inv w (create id ref o) db h = (create-Inv id ref o).at db h
step-Inv w (approve id by) db h = (approve-Inv w id by).at db h
step-Inv w (process id by) db h = (process-Inv w id by).at db h
step-Inv w (complete id proof) db h = (complete-Inv w id proof).at db h
step-Inv w (create_batch id number o) db h = (create_batch_settlements-Inv id number o).at db h
step-Inv w (approve_batch id by) db h = (approve_batch-Inv w id by).at db h
step-Inv w (process_batch id by) db h = (process_batch-Inv w id by).at db h
step-Inv w (start id type s) db h = (open-Inv id type s).at db h
step-Inv w (reconcile id o) db h = (reconcile-Inv w id o).at db h
step-Inv w (reconcile_all ids b) db h = (reconcile_batch-Inv w ids b).at db h
step-Inv w (resolve id text by) db h = (resolve-Inv w id text by).at db h

run-Inv : (cs : List (World × Call)) (db : Db) → Inv db → Inv (run cs db)
unfolding run
run-Inv [] db h = h
run-Inv ((w, c) ∷ cs) db h = run-Inv cs (step w c db) (step-Inv w c db h)

-- Whatever methods of the two services are called, from a database without payouts and in whatever
-- worlds, a settlement that is then PROCESSING or SUBMITTED has an approver.
pub live_settlements_approved :
    (cs : List (World × Call)) (db : Db) (id : ℕ) (s : OutboundSettlement)
    → db.outbound ≡ []
    → outbound_by id (run cs db) ≡ some s
    → is_live s.status ≡ true
    → is_some s.approved_by ≡ true
live_settlements_approved cs db id s empty found live =
    (run-Inv cs db (Inv-empty db empty)).rows.at id s found live
