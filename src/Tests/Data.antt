-- ===== src/Tests/Data.antt =====
-- A small database, and the world of the tests.
use sohcahtoa_api.Prelude.{ℕ, false, Option, none, some, [], ◌∷◌, ◌==◌, if◌then◌else◌}
use sohcahtoa_api.Store.{Db}
use sohcahtoa_api.Store.Rows.{
  Transaction, TransactionStatus, TransactionStep, OutboundSettlement, SettlementStatus,
  SettlementBatch, SettlementDirection, VirtualAccount, VirtualAccountType, VirtualAccountStatus,
}
use sohcahtoa_api.Payments.World.{World, Verification}
use sohcahtoa_api.Payments.Outbound.{CreateSettlementOptions, new_settlement}

abbrev pub verification : ℕ → Verification
verification session = record {
  session_id = session;
  account_number = 9900;
  tran_remarks = "Deposit";
  transaction_amount = 5000000;
  settled_amount = 5000000;
  fee_amount = 0;
  vat_amount = 0;
  currency = "NGN";
  settlement_id = some 61;
  source_account_number = none;
  source_account_name = none;
  source_bank_name = none;
  channel_id = none;
  tran_date_time = 900;
}

abbrev pub world : World
world = record {
  now = 1000;
  endpoint = λ session. some (verification session);
  notify_fails = λ n. false;
  now_text = "1000";
  prisma_message = λ c. "database error";
}

abbrev pub payout : CreateSettlementOptions
payout = record {
  transaction_id = none;
  amount = 2500000;
  currency = "USD";
  beneficiary_name = "Ada";
  beneficiary_bank = none;
  beneficiary_account = none;
  beneficiary_swift = none;
  beneficiary_iban = none;
  beneficiary_country = none;
  beneficiary_address = none;
  payment_method = "WIRE";
  initiated_by = 3;
  notes = none;
}

abbrev pub settlement : ℕ → SettlementStatus → Option ℕ → OutboundSettlement
settlement id status batch =
    record (new_settlement id (if id == 1 then "REF-1" else "REF-2") payout) {
      status = status;
      batch_id = batch;
    }

abbrev pub batch : SettlementStatus → SettlementBatch
batch status = record {
  id = 40;
  batch_number = "BATCH-1";
  direction = SettlementDirection.outbound;
  total_amount = 5000000;
  total_count = 2;
  currency = "USD";
  status = status;
  description = none;
  created_by = 3;
  approved_by = none;
  processed_by = none;
  approved_at = none;
  submitted_at = none;
}

abbrev pub transaction : Transaction
transaction = record {
  id = 70;
  user_id = 8;
  status = TransactionStatus.approved;
  current_step = TransactionStep.admin_review;
  naira_equivalent = some 5000000;
  completed_at = none;
}

abbrev pub account : VirtualAccount
account = record {
  id = 30;
  user_id = some 8;
  transaction_id = some 70;
  account_number = 9900;
  account_name = "Ada";
  type = VirtualAccountType.dynamic;
  status = VirtualAccountStatus.active;
  is_blacklisted = false;
  blacklisted_at = none;
  blacklist_reason = none;
  expires_at = none;
}

abbrev pub empty : Db
empty = record {
  transactions = [];
  step_logs = [];
  virtual_accounts = [];
  deposits = [];
  settlements = [];
  outbound = [];
  batches = [];
  reconciliations = [];
  notifications = [];
}

abbrev pub payouts : SettlementStatus → Db
payouts status = record empty {
  outbound = settlement 1 status (some 40) ∷ settlement 2 SettlementStatus.pending none ∷ [];
  batches = batch status ∷ [];
}

abbrev pub customer : Db
customer = record empty { transactions = transaction ∷ []; virtual_accounts = account ∷ [] }
