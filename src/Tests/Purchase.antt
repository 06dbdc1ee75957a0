-- ===== src/Tests/Purchase.antt =====
-- Transactions of customers on concrete tables.
use sohcahtoa_api.Prelude.{
  ℕ, Bool, ◌/◌, filter, String, true, false, Option, none, some, [], ◌∷◌, ◌≡◌, refl, Text, text_eq,
  ◌==◌, if◌then◌else◌, ◌+◌, not, ◌&&◌,
}
use sohcahtoa_api.Errors.{ok, err, invalid}
use sohcahtoa_api.Exec.{result, after}
use sohcahtoa_api.Store.Rows.{TransactionStatus}
use sohcahtoa_api.Cbn.Rules.{TransactionType, TransactionMode}
use sohcahtoa_api.Customer.Rows.{
  Transaction, SellRate, Branch, CustomerDb, TransactionRequest, File, World,
}
use sohcahtoa_api.Customer.Quotes.{quote_for, is_usable, latest, quoted}
use sohcahtoa_api.Rates.{to_upper_case}
use sohcahtoa_api.Table.{find_unique}
use sohcahtoa_api.Customer.Pickups.{
  booked, get_pickup_terminals, check_terminal_availability, is_in, contains, starts_with,
}
use sohcahtoa_api.Cbn.Documents.{is_tourist}
use sohcahtoa_api.Customer.Totals.{
  Arithmetic, GroupTotal, Totals, get_totals_by_group, add_each, is_counted, amount_in_usd,
}
use sohcahtoa_api.Customer.Uploads.{upload_documents, stored}
use sohcahtoa_api.Customer.Creation.{
  create_transaction, CreatedTransaction, respond, create_transaction_row, create_pickup,
  complete_creation, update_kyc, create_kyc, new_transaction, add_documents,
}
use sohcahtoa_api.Customer.History.{uploads, run, statuses_stay}
use sohcahtoa_api.Customer.Statuses.{status_of}
use sohcahtoa_api.Customer.Pickups.Booking.{create_transaction_books}
use sohcahtoa_api.Customer.Groups.{
  Group, same_group, selected_by, resolve_transaction_group, first_group, selected_iff_resolved,
}
use sohcahtoa_api.Customer.Totals.Sums.{
  sum_from, in_any, is_bought, is_sold, is_remitted, totals_add_up,
}
use sohcahtoa_api.Customer.Uploads.Stored.{upload_documents_lem, stored_rows, failed_upload}

abbrev usd : Text
usd = 85 ∷ 83 ∷ 68 ∷ []

abbrev ngn : Text
ngn = 78 ∷ 71 ∷ 78 ∷ []

abbrev stored_at : File → Option String
stored_at f = if f.size == 0 then none else some "https://files"

abbrev today : World
today = record {
  now = 1000;
  fresh_id = 41;
  reference_number = 900;
  pickup_code = 77;
  upload = stored_at;
  nan_error = invalid "not a number";
}

abbrev dollar : SellRate
dollar = record {
  from_currency = usd;
  to_currency = ngn;
  sell_rate = some 1500000000;
  valid_from = 0;
  valid_until = 5000;
  updated_at = 10;
  is_active = true;
}

abbrev ikeja : Branch
ikeja = record {
  id = 3;
  state = 76 ∷ [];
  address = 73 ∷ 75 ∷ [];
  is_active = true;
  is_approved = true;
}

abbrev shop : CustomerDb
shop = record {
  users = record { id = 7 } ∷ [];
  kycs = [];
  transactions = [];
  steps = [];
  documents = [];
  pickups = [];
  rates = dollar ∷ [];
  branches = ikeja ∷ [];
}

abbrev purchase : TransactionRequest
purchase = record {
  user_id = 7;
  created_by_agent_id = none;
  type = some TransactionType.pta;
  mode = none;
  currency = usd;
  amount = 100000;
  bvn = some (49 ∷ []);
  nin = none;
  admission_type = none;
  documents = [];
  has_beneficiary = false;
  pickup = some (record {
    id = some 3;
    name = "Ikeja";
    recipient_name = none;
    scheduled_date = some 20;
    scheduled_time = some 540;
  });
}

abbrev answer : CreatedTransaction
answer = respond today purchase TransactionType.pta []

made : result (create_transaction today purchase) shop ≡ ok answer
unfolding create_transaction find_unique update_kyc create_kyc create_transaction_row
    complete_creation create_pickup quote_for is_usable latest to_upper_case text_eq
made = refl

abbrev ticket : File
ticket = record { name = "ticket.pdf"; size = 20 }

abbrev broken : File
broken = record { name = "broken.pdf"; size = 0 }

statuses_stay_example :
    status_of 41 (
      run
        ((today, uploads 41 7 "VISA" (ticket ∷ [])) ∷ [])
        (after (create_transaction today purchase) shop))
    ≡ some TransactionStatus.draft
statuses_stay_example =
    statuses_stay today purchase shop answer ((today, uploads 41 7 "VISA" (ticket ∷ [])) ∷ []) made

create_transaction_books_example :
    booked 3 20 540 (after (create_transaction today purchase) shop) ≡ booked 3 20 540 shop + 1
create_transaction_books_example = create_transaction_books today purchase shop answer 3 20 540 made

abbrev draft : Transaction
draft = new_transaction today purchase TransactionType.pta (quoted 1500000000 150000000000000)

abbrev drafted : CustomerDb
drafted = record shop { transactions = draft ∷ [] }

upload_documents_lem_example :
    upload_documents today 41 7 "VISA" (ticket ∷ broken ∷ ticket ∷ []) drafted ≡ (
      err failed_upload,
      add_documents (stored_rows today 41 7 "VISA" (ticket ∷ broken ∷ ticket ∷ [])) drafted,
    )
upload_documents_lem_example =
    upload_documents_lem today 41 7 "VISA" (ticket ∷ broken ∷ ticket ∷ []) draft drafted refl refl

-- the file before the broken one
one_stored :
    stored_rows today 41 7 "VISA" (ticket ∷ broken ∷ ticket ∷ [])
    ≡ stored 41 7 "VISA" ticket "https://files" ∷ []
unfolding stored_rows
one_stored = refl

-- the city is found in any case of its letters
offered : get_pickup_terminals (76 ∷ []) (105 ∷ []) (some (20, 540)) shop ≡ ikeja ∷ []
unfolding get_pickup_terminals check_terminal_availability is_in contains starts_with to_upper_case
    text_eq booked
offered = refl

selected_iff_resolved_example :
    selected_by Group.selling TransactionType.tourist_fx
    ≡ not (is_tourist TransactionType.tourist_fx)
      && same_group Group.selling
          (resolve_transaction_group TransactionType.tourist_fx (some TransactionMode.sell))
selected_iff_resolved_example =
    selected_iff_resolved Group.selling TransactionType.tourist_fx (some TransactionMode.sell)

abbrev bought : Transaction
bought = record draft { status = TransactionStatus.completed }

-- whole cents
abbrev cents : Arithmetic ℕ
cents = record {
  nought = 0;
  of_cents = λ n. n;
  add = λ x y. x + y;
  divide = λ x y. x / y;
  is_truthy = λ x. not (x == 0);
  to_cents = λ x. x;
}

abbrev totals : Totals ℕ
totals = get_totals_by_group cents 7 [] [] (bought ∷ draft ∷ bought ∷ [])

two_bought : totals.bought.transaction_count ≡ 2
unfolding get_totals_by_group add_each is_counted amount_in_usd to_upper_case text_eq
    resolve_transaction_group first_group
two_bought = refl

abbrev sum_of : (Option Group → Bool) → GroupTotal ℕ
sum_of p =
    sum_from cents p [] [] (filter (is_counted 7) (bought ∷ draft ∷ bought ∷ []))
      (record { total_amount = 0; transaction_count = 0 })

totals_add_up_example :
    (totals.overall.total_amount ≡ (sum_of in_any).total_amount)
    × (totals.bought.total_amount ≡ (sum_of is_bought).total_amount)
    × (totals.sold.total_amount ≡ (sum_of is_sold).total_amount)
    × (totals.remitted.total_amount ≡ (sum_of is_remitted).total_amount)
    × (totals.overall.transaction_count
        ≡ totals.bought.transaction_count + totals.sold.transaction_count
          + totals.remitted.transaction_count)
totals_add_up_example = totals_add_up cents 7 [] [] (bought ∷ draft ∷ bought ∷ [])
