-- ===== src/Customer/Totals.antt =====
-- getTotalsByGroup of src/modules/customer/services/customer-transaction.service.ts. The numbers that
-- the code adds up are those of any arithmetic with the operations that it uses, of which
-- JavaScript's floating point is one. The amount of a row is in cents.
pub mod Sums
use sohcahtoa_api.Prelude.{
  ℕ, ◌+◌, ◌*◌, ◌/◌, ◌==◌, leb, ltb, Bool, true, false, ◌&&◌, Option, none, some, or_option, List,
  [], ◌∷◌, filter, find, Text, text_eq, if◌then◌else◌,
}
use sohcahtoa_api.Store.Rows.{TransactionStatus}
use sohcahtoa_api.Rates.{to_upper_case}
use sohcahtoa_api.Customer.Rows.{Transaction}
use sohcahtoa_api.Customer.Groups.{Group, resolve_transaction_group}

abbrev usd : Text
usd = 85 ∷ 83 ∷ 68 ∷ []

-- what the code does with numbers of `F`
pub record Arithmetic (F : Type 0) : Type 0 where
  pub nought : F
  pub of_cents : ℕ → F  -- parseFloat of an amount
  pub add : F → F → F
  pub divide : F → F → F
  pub is_truthy : F → Bool
  pub to_cents : F → F  -- Math.round(x * 100) / 100

-- an active rate to USD, or a custom one
pub record UsdRate (F : Type 0) : Type 0 where
  pub currency : Text
  pub rate : F

pub record GroupTotal (F : Type 0) : Type 0 where
  pub total_amount : F
  pub transaction_count : ℕ

pub record Totals (F : Type 0) : Type 0 where
  pub overall : GroupTotal F
  pub bought : GroupTotal F
  pub sold : GroupTotal F
  pub remitted : GroupTotal F

abbrev is_completed : TransactionStatus → Bool
is_completed TransactionStatus.completed = true
is_completed _ = false

abbrev has_amount : Option ℕ → Bool
has_amount none = false
has_amount (some n) = true

unfoldable pub is_counted : ℕ → Transaction → Bool
is_counted user t = t.user_id == user && (is_completed t.status && has_amount t.foreign_amount)

abbrev or_zero : Option ℕ → ℕ
or_zero none = 0
or_zero (some n) = n

module _ {F : Type 0} where
  -- the last rate that was set for a currency
  unfoldable pub last_rate : Text → List (UsdRate F) → Option F
  last_rate currency [] = none
  last_rate currency (r ∷ rates) =
      let rest = last_rate currency rates in
      or_option rest (if text_eq r.currency currency then some r.rate else none)

  abbrev rate_in : Option (UsdRate F) → Option F
  rate_in none = none
  rate_in (some r) = some r.rate

  -- rateMap.get: a custom rate counts where there is none, and the first of them
  unfoldable pub rate_of : List (UsdRate F) → List (UsdRate F) → Text → Option F
  rate_of rates custom currency =
      or_option (last_rate currency rates)
        (rate_in (find (λ r. text_eq (to_upper_case r.currency) currency) custom))

module _ {F : Type 0} (num : Arithmetic F) where
  -- if (rate) ..., else the transaction is skipped
  abbrev divided : Option F → F → Option F
  divided none amount = none
  divided (some rate) amount = if num.is_truthy rate then some (num.divide amount rate) else none

  unfoldable pub amount_in_usd : List (UsdRate F) → List (UsdRate F) → Transaction → Option F
  amount_in_usd rates custom t =
      let currency = to_upper_case t.currency in
      let amount = num.of_cents (or_zero t.foreign_amount) in
      if text_eq currency usd then some amount else divided (rate_of rates custom currency) amount

  abbrev pub plus : F → GroupTotal F → GroupTotal F
  plus amount g = record {
    total_amount = num.add g.total_amount amount;
    transaction_count = g.transaction_count + 1;
  }

  abbrev pub add_to : Option Group → F → Totals F → Totals F
  add_to (some Group.buying) amount t = record t {
    overall = plus amount t.overall;
    bought = plus amount t.bought;
  }
  add_to (some Group.selling) amount t = record t {
    overall = plus amount t.overall;
    sold = plus amount t.sold;
  }
  add_to (some Group.remittance) amount t = record t {
    overall = plus amount t.overall;
    remitted = plus amount t.remitted;
  }
  add_to none amount t = record t { overall = plus amount t.overall }

  abbrev pub add_amount : Option F → Option Group → Totals F → Totals F
  add_amount none group t = t
  add_amount (some amount) group t = add_to group amount t

  unfoldable pub add_each :
      List (UsdRate F) → List (UsdRate F) → List Transaction → Totals F → Totals F
  add_each rates custom [] totals = totals
  add_each rates custom (t ∷ ts) totals =
      add_each rates custom ts
        (add_amount (amount_in_usd rates custom t) (resolve_transaction_group t.type t.mode) totals)

  abbrev nothing : GroupTotal F
  nothing = record { total_amount = num.nought; transaction_count = 0 }

  abbrev pub no_totals : Totals F
  no_totals = record { overall = nothing; bought = nothing; sold = nothing; remitted = nothing }

  abbrev pub rounded : GroupTotal F → GroupTotal F
  rounded g = record g { total_amount = num.to_cents g.total_amount }

  unfoldable pub get_totals_by_group :
      ℕ → List (UsdRate F) → List (UsdRate F) → List Transaction → Totals F
  get_totals_by_group user rates custom transactions =
      let t = add_each rates custom (filter (is_counted user) transactions) no_totals in
      record {
        overall = rounded t.overall;
        bought = rounded t.bought;
        sold = rounded t.sold;
        remitted = rounded t.remitted;
      }
