-- ===== src/Payments/Deposits/Webhook.antt =====
-- The branches of the webhook's handler.
use sohcahtoa_api.Prelude.{ℕ, ◌≡◌, none, some, Option-cases, Bool-cases, inl, inr, if◌then◌else◌}
use sohcahtoa_api.Errors.{err, ok, wrap}
use sohcahtoa_api.Exec.{try_catch, raise}
use sohcahtoa_api.Store.{Db}
use sohcahtoa_api.Store.Writes.{account_by_number, deposit_by_session}
use sohcahtoa_api.Payments.World.{World}
use sohcahtoa_api.Payments.Deposits.{
  WebhookPayload, handle_deposit_webhook, record_deposit, account_not_found, account_blacklisted,
}

-- A webhook, in all cases: an unknown account is answered with 404 and a blacklisted one with 403;
-- a session id that was recorded before is answered with the deposit of that time; each of
-- these writes nothing. Only a new session on an account in use goes on to record a deposit.
pub webhook_lem :
    (w : World) (id : ℕ) (p : WebhookPayload) (db : Db)
    → handle_deposit_webhook w id p db ≡ elim (account_by_number p.account_number db) [
      | none ↦ (err account_not_found, db)
      | some a ↦
          if a.is_blacklisted
          then (err account_blacklisted, db)
          else elim (deposit_by_session p.session_id db) [
            | some deposit ↦ (ok deposit, db)
            | none ↦
                try_catch
                  (record_deposit w id p a)
                  (λ e. raise (wrap "Failed to process deposit webhook" e))
                  db
          ]
    ]
unfolding handle_deposit_webhook
webhook_lem w id p db = elim (Option-cases (account_by_number p.account_number db)) [
  | inl missing ↦ rw missing
  | inr (a, found) ↦ elim (Bool-cases a.is_blacklisted) [
    | inl listed ↦ rw found (rw listed)
    | inr free ↦ elim (Option-cases (deposit_by_session p.session_id db)) [
      | inl new ↦ rw found (rw free (rw new))
      | inr (d, old) ↦ rw found (rw free (rw old))
    ]
  ]
]
