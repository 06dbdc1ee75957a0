-- ===== src/Payments/Outbound/Status.antt =====
-- SettlementStatus: the tests that the settlement service makes, and its names in messages.
use sohcahtoa_api.Prelude.{String, Bool, true, false}
use sohcahtoa_api.Store.Rows.{SettlementStatus}

-- status === SettlementStatus.PENDING
abbrev pub is_pending : SettlementStatus → Bool
is_pending SettlementStatus.pending = true
is_pending _ = false

-- status === SettlementStatus.PROCESSING
abbrev pub is_processing : SettlementStatus → Bool
is_processing SettlementStatus.processing = true
is_processing _ = false

-- `${status}`
unfoldable pub status_name : SettlementStatus → String
status_name SettlementStatus.pending = "PENDING"
status_name SettlementStatus.processing = "PROCESSING"
status_name SettlementStatus.submitted = "SUBMITTED"
status_name SettlementStatus.completed = "COMPLETED"
status_name SettlementStatus.failed = "FAILED"
status_name SettlementStatus.cancelled = "CANCELLED"
status_name SettlementStatus.requires_approval = "REQUIRES_APPROVAL"
