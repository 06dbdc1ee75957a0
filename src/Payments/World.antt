-- ===== src/Payments/World.antt =====
-- What the payment services rely on outside the database: the Providus endpoint, whether the
-- notification service fails, and the clock, read once in each call of a service; and
-- verifyTransactionBySessionId of src/modules/payments/services/providus.service.ts, which reads
-- the endpoint's answer.
use text.Mathlib.Text.{◌==◌ as str_eq}
use sohcahtoa_api.Prelude.{ℕ, String, Bool, Option, none, some, [], ◌∷◌, ◌++◌, if◌then◌else◌}
use sohcahtoa_api.Errors.{
  Error, PrismaCode, prisma, other, Result, ok, err, app, not_found_error, external_service_error,
  internal_error,
}
use sohcahtoa_api.Exec.{Exec}
use sohcahtoa_api.Store.{Db}
use sohcahtoa_api.Store.Rows.{Notification}

pub record Verification : Type 0 where
  pub session_id : ℕ
  pub account_number : ℕ
  pub tran_remarks : String
  pub transaction_amount : ℕ
  pub settled_amount : ℕ
  pub fee_amount : ℕ
  pub vat_amount : ℕ
  pub currency : String
  pub settlement_id : Option ℕ  -- 0 is the empty text
  pub source_account_number : Option String
  pub source_account_name : Option String
  pub source_bank_name : Option String
  pub channel_id : Option String
  pub tran_date_time : ℕ

pub record World : Type 0 where
  pub now : ℕ
  pub endpoint : ℕ → Option Verification  -- none: the request fails
  pub notify_fails : Notification → Bool
  pub now_text : String  -- `now` in decimal
  pub prisma_message : PrismaCode → String

-- verifyTransactionBySessionId
unfoldable pub verify_by_session : World → ℕ → Result Verification
verify_by_session w session = elim (w.endpoint session) [
  | none ↦ err (app external_service_error "Failed to verify transaction" 500)
  | some v ↦
      if str_eq v.tran_remarks "Transaction not found!!!"
      then err (not_found_error "Transaction not found")
      else ok v
]

-- sendNotification, of which the payment services see that it returns or throws one `AppError`
unfoldable pub send_notification : World → Notification → Exec Db (Unit {0})
send_notification w n db =
    if w.notify_fails n
    then (err (app internal_error "Failed to send notification" 500), db)
    else (ok tt, record db { notifications = db.notifications ++ n ∷ [] })

-- error instanceof Error ? error.message : 'Unknown error'
abbrev pub message_of : World → Error → String
message_of w (app c m s) = m
message_of w (prisma c) = w.prisma_message c
message_of w (other m) = m
