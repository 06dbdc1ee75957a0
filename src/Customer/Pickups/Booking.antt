-- ===== src/Customer/Pickups/Booking.antt =====
-- What createTransaction does to the time slots of the terminals.
use sohcahtoa_api.Prelude.{
  ℕ, ◌+◌, Bool, true, false, not, ◌&&◌, ◌||◌, Option, none, some, is_some, List, [], ◌∷◌, ◌++◌,
  filter, length, All, Bool-cases, inl, inr, Text, ◌<◌, ◌≡◌, refl, ◌∙◌, ap, arith,
}
use sohcahtoa_api.Errors.{ok}
use sohcahtoa_api.Exec.{result, after, pure, gets, modify, ◌>>=◌, ◌>>◌}
use sohcahtoa_api.Exec.Keeps.{Keeps, Keeps-pure, keeps_rules}
use sohcahtoa_api.Exec.Triples.{Yields, Yields-bind, Yields-after, Yields-Keeps}
use sohcahtoa_api.Cbn.Rules.{TransactionType}
use sohcahtoa_api.Customer.Rows.{
  CashPickup, CustomerDb, PickupLocation, TransactionRequest, World, Kyc, Transaction,
}
use sohcahtoa_api.Customer.Quotes.{Quote}
use sohcahtoa_api.Customer.Creation.{
  create, create_kyc, kyc_if, update_kyc, create_transaction_row, create_pickup, new_pickup,
  schedule, complete_creation, create_transaction, CreatedTransaction,
}
use sohcahtoa_api.Customer.Pickups.{
  booked, in_slot, is_at, get_pickup_terminals, check_terminal_availability, has_room, is_in,
}

abbrev one_if : Bool → ℕ
one_if true = 1
one_if false = 0

-- the request asks for this slot
abbrev takes : ℕ → ℕ → ℕ → Option PickupLocation → Bool
takes terminal date time none = false
takes terminal date time (some p) =
    is_at p.id terminal && (is_at p.scheduled_date date && is_at p.scheduled_time time)

pub record HasBooked (terminal date time n : ℕ) (db : CustomerDb) : Type 0 where
  pub found : booked terminal date time db ≡ n

length-filter-append :
    {A : Type 0} (p : A → Bool) (xs : List A) (x : A)
    → length (filter p (xs ++ x ∷ [])) ≡ length (filter p xs) + one_if (p x)
length-filter-append p [] x = ground arith
length-filter-append p (y ∷ xs) x = ground (arith, length-filter-append p xs x)

module _ {P Q : CustomerDb → Type 0} {A : Type 0} where
  create-Yields :
      (clash : Bool) (row : A) (write : CustomerDb → CustomerDb)
      → ((db : CustomerDb) → P db → Q (write db))
      → Yields P (create clash row write) (λ a. Q)
  create-Yields true row write k = record { at = λ db h a e. absurd (ground arith) }
  create-Yields false row write k = record { at = λ db h a e. k db h }

module _ {terminal date time n : ℕ} where
  Keeps-same :
      (f : CustomerDb → CustomerDb)
      → ((db : CustomerDb) → (f db).pickups ≡ db.pickups)
      → Keeps (HasBooked terminal date time n) (modify f)
  unfolding booked
  Keeps-same f same = record { at = λ db h. record { found = rw (same db) h.found } }

  create-Keeps :
      {A : Type 0} (clash : Bool) (row : A) (write : CustomerDb → CustomerDb)
      → Keeps (HasBooked terminal date time n) (modify write)
      → Keeps (HasBooked terminal date time n) (create clash row write)
  create-Keeps true row write k = record { at = λ db h. h }
  create-Keeps false row write k = record { at = k.at }

  create_kyc-Keeps : (row : Kyc) → Keeps (HasBooked terminal date time n) (create_kyc row)
  unfolding create_kyc
  create_kyc-Keeps row = search (keeps_rules, create-Keeps, Keeps-same)

  kyc_if-Keeps :
      (b : Bool) (r : TransactionRequest) → Keeps (HasBooked terminal date time n) (kyc_if b r)
  kyc_if-Keeps false r = search keeps_rules
  kyc_if-Keeps true r = search (keeps_rules, create_kyc-Keeps)

  update_kyc-Keeps :
      (r : TransactionRequest) (kyc : Option Kyc)
      → Keeps (HasBooked terminal date time n) (update_kyc r kyc)
  unfolding update_kyc
  update_kyc-Keeps r kyc = kyc_if-Keeps ((is_some r.bvn || is_some r.nin) && not (is_some kyc)) r

  create_transaction_row-Keeps :
      (w : World) (row : Transaction) (q : Quote)
      → Keeps (HasBooked terminal date time n) (create_transaction_row w row q)
  unfolding create_transaction_row
  create_transaction_row-Keeps w row q = search (keeps_rules, create-Keeps, Keeps-same)

  append-Yields :
      (clash : Bool) (row : CashPickup)
      → Yields
          (HasBooked terminal date time n)
          (create clash row (λ db. record db { pickups = db.pickups ++ row ∷ [] }))
          (λ p. HasBooked terminal date time (n + one_if (in_slot terminal date time row)))
  unfolding booked
  append-Yields clash row =
      create-Yields clash row (λ db. record db { pickups = db.pickups ++ row ∷ [] })
        (λ db h. record {
          found =
              length-filter-append (in_slot terminal date time) db.pickups row
              ∙ ap (λ k. k + one_if (in_slot terminal date time row)) h.found;
        })

  create_pickup-Yields :
      (row : CashPickup)
      → Yields
          (HasBooked terminal date time n)
          (create_pickup row)
          (λ p. HasBooked terminal date time (n + one_if (in_slot terminal date time row)))
  unfolding create_pickup
  create_pickup-Yields row = search (Yields-after, keeps_rules, append-Yields)

  schedule-Yields :
      (w : World) (r : TransactionRequest) (p : Option PickupLocation)
      → Yields
          (HasBooked terminal date time n)
          (schedule w r p)
          (λ u. HasBooked terminal date time (n + one_if (takes terminal date time p)))
  schedule-Yields w r none = record { at = λ db h u e. record { found = omega (arith, h.found) } }
  schedule-Yields w r (some p) =
      Yields-bind (create_pickup (new_pickup w r p)) _ (create_pickup-Yields (new_pickup w r p))
        (λ made. Yields-Keeps _ (Keeps-pure tt))

  scheduled :
      (w : World) (r : TransactionRequest) (f : CustomerDb → CreatedTransaction)
      → Yields
          (HasBooked terminal date time n)
          (schedule w r r.pickup >> (gets f >>= pure))
          (λ c. HasBooked terminal date time (n + one_if (takes terminal date time r.pickup)))
  scheduled w r f =
      Yields-bind (schedule w r r.pickup) _ (schedule-Yields w r r.pickup)
        (λ u. Yields-Keeps _ (search keeps_rules))

  complete_creation-Yields :
      (w : World) (r : TransactionRequest) (type : TransactionType)
      → Yields
          (HasBooked terminal date time n)
          (complete_creation w r type)
          (λ c. HasBooked terminal date time (n + one_if (takes terminal date time r.pickup)))
  unfolding complete_creation
  complete_creation-Yields w r type =
      search (Yields-after, keeps_rules, Keeps-same, scheduled) depth 40

  create_transaction-Yields :
      (w : World) (r : TransactionRequest)
      → Yields
          (HasBooked terminal date time n)
          (create_transaction w r)
          (λ c. HasBooked terminal date time (n + one_if (takes terminal date time r.pickup)))
  unfolding create_transaction
  create_transaction-Yields w r =
      search
        (
          Yields-after, keeps_rules, update_kyc-Keeps, create_transaction_row-Keeps,
          complete_creation-Yields,
        )
        depth 40

-- A call of createTransaction that succeeds books one spot of the slot that its pickup asks for and
-- none of any other slot.
pub create_transaction_books :
    (w : World) (r : TransactionRequest) (db : CustomerDb) (c : CreatedTransaction)
    (terminal date time : ℕ)
    → result (create_transaction w r) db ≡ ok c
    → booked terminal date time (after (create_transaction w r) db)
      ≡ booked terminal date time db + one_if (takes terminal date time r.pickup)
create_transaction_books w r db c terminal date time made =
    ((create_transaction-Yields w r).at db (record { found = refl }) c made).found

All-filter :
    {A : Type 0} (P : A → Type 0) (p : A → Bool)
    → ((a : A) → p a ≡ true → P a)
    → (xs : List A) → All P (filter p xs)
All-filter P p k [] = tt
All-filter P p k (x ∷ xs) = elim (Bool-cases (p x)) [
  | inl here ↦ rw here (k x here, All-filter P p k xs)
  | inr away ↦ rw away (All-filter P p k xs)
]

-- A terminal that getPickupTerminals offers for a time has fewer than ten pickups waiting then.
pub offered_has_room :
    (state city : Text) (date time : ℕ) (db : CustomerDb)
    → All
        (λ b. booked b.id date time db < 10)
        (get_pickup_terminals state city (some (date, time)) db)
unfolding get_pickup_terminals check_terminal_availability
offered_has_room state city date time db =
    All-filter (λ b. booked b.id date time db < 10) (has_room (some (date, time)) db)
      (λ b open_then. ground (arith, open_then)) (filter (is_in state city) db.branches)
