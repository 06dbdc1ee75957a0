-- ===== src/Customer/Quotes.antt =====
-- The exchange rate that createTransaction applies
-- (src/modules/customer/services/customer-transaction.service.ts).
use sohcahtoa_api.Prelude.{
  ℕ, ◌*◌, ltb, leb, Bool, true, false, ◌&&◌, Option, none, some, List, [], ◌∷◌, filter, Text,
  text_eq, if◌then◌else◌,
}
use sohcahtoa_api.Rates.{to_upper_case}
use sohcahtoa_api.Customer.Rows.{SellRate, CustomerDb, World}

abbrev ngn : Text
ngn = 78 ∷ 71 ∷ 78 ∷ []

-- isActiveWhere of src/shared/utils/rate-filters.ts, with the currencies
unfoldable pub is_usable : ℕ → Text → SellRate → Bool
is_usable now from s =
    text_eq s.from_currency from
    && (text_eq s.to_currency ngn
        && (s.is_active && (leb s.valid_from now && ltb now s.valid_until)))

-- orderBy: { updatedAt: 'desc' }, and the first
unfoldable pub latest : List SellRate → Option SellRate
latest [] = none
latest (s ∷ rows) = elim (latest rows) [
  | none ↦ some s
  | some later ↦ some (if ltb s.updated_at later.updated_at then later else s)
]

-- exchangeRate with nairaEquivalent: both null, both numbers, or both NaN
pub data Quote : Type 0 where
  unknown : Quote
  quoted : ℕ → ℕ → Quote
  not_a_number : Quote

-- parseFloat(rate.sellRate)
abbrev pub quote_by : Option SellRate → ℕ → Quote
quote_by none amount = unknown
quote_by (some s) amount = elim s.sell_rate [
  | none ↦ not_a_number
  | some rate ↦ quoted rate (amount * rate)
]

unfoldable pub quote_for : World → Text → ℕ → CustomerDb → Quote
quote_for w currency amount db =
    if text_eq (to_upper_case currency) ngn
    then quoted 1000000 (amount * 1000000)
    else quote_by (latest (filter (is_usable w.now (to_upper_case currency)) db.rates)) amount

abbrev pub rate_in : Quote → Option ℕ
rate_in (quoted rate naira) = some rate
rate_in _ = none

abbrev pub naira_in : Quote → Option ℕ
naira_in (quoted rate naira) = some naira
naira_in _ = none

abbrev pub is_nan : Quote → Bool
is_nan not_a_number = true
is_nan _ = false
