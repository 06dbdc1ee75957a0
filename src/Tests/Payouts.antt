-- ===== src/Tests/Payouts.antt =====
-- Payouts: settlement.service.ts on the small database.
use sohcahtoa_api.Prelude.{
  ℕ, ◌≡◌, ◌≢◌, refl, true, some, [], ◌∷◌, arith, is_some, if◌then◌else◌, List,
}
use sohcahtoa_api.Errors.{succeeds}
use sohcahtoa_api.Table.{find_unique, modify_where, modify_unique}
use sohcahtoa_api.Store.{Db}
use sohcahtoa_api.Store.Rows.{OutboundSettlement, SettlementStatus}
use sohcahtoa_api.Store.Writes.{outbound_by, create_outbound, update_outbound}
use sohcahtoa_api.Payments.World.{World}
use sohcahtoa_api.Payments.Outbound.{
  approve_settlement, create_outbound_settlement, new_settlement, process_settlement,
  submit_settlement, notify_processed, mark_approved, mark_submitted,
}
use sohcahtoa_api.Payments.Outbound.Cases.{process_outcome}
use sohcahtoa_api.Payments.History.{
  Call, run, step, create, approve, process, live_settlements_approved,
}
use sohcahtoa_api.Tests.Data.{world, payout, settlement, payouts, empty}

abbrev history : List (World × Call)
history = (world, create 1 "REF-1" payout) ∷ (world, approve 1 7) ∷ (world, process 1 9) ∷ []

abbrev submitted : OutboundSettlement
submitted = mark_submitted world 9 (mark_approved world 7 (new_settlement 1 "REF-1" payout))

history_ends : outbound_by 1 (run history empty) ≡ some submitted
unfolding run step find_unique create_outbound_settlement create_outbound approve_settlement
    update_outbound modify_unique modify_where process_settlement submit_settlement notify_processed
history_ends = refl

live_settlements_approved_example : is_some submitted.approved_by ≡ true
live_settlements_approved_example =
    live_settlements_approved history empty 1 submitted refl history_ends refl

abbrev active : Db
active = payouts SettlementStatus.processing

found_active : outbound_by 1 active ≡ some (settlement 1 SettlementStatus.processing (some 40))
unfolding find_unique
found_active = refl

process_outcome_example :
    (row : OutboundSettlement) × (outbound_by 1 (process_settlement world 1 9 active).1 ≡ some row)
    × (row.status ≡ (
        if succeeds (process_settlement world 1 9 active).0
        then SettlementStatus.submitted
        else SettlementStatus.failed))
process_outcome_example =
    process_outcome world 1 9 active (settlement 1 SettlementStatus.processing (some 40))
      found_active

one_is_not_two : ◌≢◌ {A = ℕ} 1 2
one_is_not_two = λ e. ground arith

abbrev waiting : Db
waiting = payouts SettlementStatus.pending
