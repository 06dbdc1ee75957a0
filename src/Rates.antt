-- ===== src/Rates.antt =====
-- The exchange rates of src/modules/payments/services/payment.service.ts and their cache in Redis.
-- A currency is the list of its UTF-16 code units, of which the upper case is taken in ASCII. Times
-- are in milliseconds. Event, source and
-- creator of a rate are left out.
pub mod Cache
use sohcahtoa_api.Prelude.{
  Text, text_eq, is_blank, ℕ, ◌+◌, ◌-◌, ◌*◌, ◌==◌, leb, ltb, Bool, true, false, not, ◌&&◌, ◌||◌,
  Option, none, some, List, [], ◌∷◌, ◌++◌, map, filter, find, if◌then◌else◌,
}
use sohcahtoa_api.Errors.{Error, ok, invalid, not_found_error}
use sohcahtoa_api.Exec.{Exec, pure, gets, modify, raise_if, or_raise, ◌>>=◌, ◌>>◌}

abbrev is_lower : ℕ → Bool
is_lower c = leb 97 c && leb c 122

-- code.toUpperCase()
unfoldable pub to_upper_case : Text → Text
to_upper_case code = map (λ c. if is_lower c then c - 32 else c) code

pub record ExchangeRate : Type 0 where
  pub from_currency : Text
  pub to_currency : Text
  pub rate : ℕ
  pub valid_from : ℕ
  pub valid_until : ℕ
  pub is_active : Bool

-- a key of Redis with its value, whose JSON is kept as fields
pub record CachedRate : Type 0 where
  pub key : Text
  pub from_currency : Text
  pub to_currency : Text
  pub rate : ℕ
  pub expires_at : ℕ

pub record RateDb : Type 0 where
  pub exchange_rates : List ExchangeRate
  pub cache : List CachedRate

pub record RateResponse : Type 0 where
  pub from_currency : Text
  pub to_currency : Text
  pub rate : ℕ
  pub amount : ℕ
  pub converted_amount : ℕ
  pub rate_valid_until : Option ℕ

pub record RateRequest : Type 0 where
  pub from_currency : Text
  pub to_currency : Text
  pub rate : ℕ
  pub valid_until : Option ℕ

-- `rate:${from}:${to}`
abbrev pub rate_key : Text → Text → Text
rate_key from to = 114 ∷ 97 ∷ 116 ∷ 101 ∷ 58 ∷ (from ++ 58 ∷ to)

unfoldable pub has_key : Text → Text → CachedRate → Bool
has_key from to c = text_eq c.key (rate_key from to)

-- redis.get(cacheKey)
unfoldable pub cached : ℕ → Text → Text → List CachedRate → Option CachedRate
cached now from to cache = find (λ c. has_key from to c && ltb now c.expires_at) cache

-- redis.del(cacheKey)
unfoldable pub uncache : Text → Text → List CachedRate → List CachedRate
uncache from to cache = filter (λ c. not (has_key from to c)) cache

-- redis.setex(cacheKey, 300, ...)
unfoldable pub put_rate : ℕ → Text → Text → ℕ → List CachedRate → List CachedRate
put_rate now from to rate cache =
    record {
      key = rate_key from to;
      from_currency = from;
      to_currency = to;
      rate = rate;
      expires_at = now + 300 * 1000;
    }
    ∷ uncache from to cache

-- where: { fromCurrency, toCurrency, isActive: true, validUntil: { gt: new Date() } }
unfoldable pub is_current : ℕ → Text → Text → ExchangeRate → Bool
is_current now from to r =
    text_eq r.from_currency from
    && (text_eq r.to_currency to && (r.is_active && ltb now r.valid_until))

-- orderBy: { validFrom: 'desc' }, and the first
unfoldable pub newest : List ExchangeRate → Option ExchangeRate
newest [] = none
newest (r ∷ rows) = elim (newest rows) [
  | none ↦ some r
  | some later ↦ some (if ltb r.valid_from later.valid_from then later else r)
]

unfoldable pub current_rate : ℕ → Text → Text → RateDb → Option ExchangeRate
current_rate now from to db = newest (filter (is_current now from to) db.exchange_rates)

abbrev pub respond : Text → Text → ℕ → ℕ → Option ℕ → RateResponse
respond from to rate amount until = record {
  from_currency = from;
  to_currency = to;
  rate = rate;
  amount = amount;
  converted_amount = amount * rate;
  rate_valid_until = until;
}

abbrev pub respond_from_cache : ℕ → CachedRate → RateResponse
respond_from_cache amount c = respond c.from_currency c.to_currency c.rate amount none

unfoldable pub fetch_rate : ℕ → Text → Text → ℕ → Exec RateDb RateResponse
fetch_rate now from to amount = do
  found ← gets (current_rate now from to)
  row ← or_raise found (not_found_error "Exchange rate not found")
  modify (λ db. record db { cache = put_rate now from to row.rate db.cache })
  pure (respond from to row.rate amount (some row.valid_until))

abbrev pub rate_by : Option CachedRate → ℕ → Text → Text → ℕ → Exec RateDb RateResponse
rate_by (some c) now from to amount = pure (respond_from_cache amount c)
rate_by none now from to amount = fetch_rate now from to amount

unfoldable pub get_exchange_rate : ℕ → Text → Text → ℕ → Exec RateDb RateResponse
get_exchange_rate now from to amount db =
    rate_by (cached now from to db.cache) now from to amount db

abbrev new_rate : ℕ → RateRequest → ℕ → ExchangeRate
new_rate now request valid_until = record {
  from_currency = to_upper_case request.from_currency;
  to_currency = to_upper_case request.to_currency;
  rate = request.rate;
  valid_from = now;
  valid_until = valid_until;
  is_active = true;
}

unfoldable pub create_exchange_rate : ℕ → RateRequest → Exec RateDb ExchangeRate
create_exchange_rate now request = do
  raise_if (is_blank request.from_currency || is_blank request.to_currency)
      (invalid "From currency and to currency are required")
  raise_if (request.rate == 0) (invalid "Rate must be a positive number")
  valid_until ← or_raise request.valid_until (invalid "Valid until date is required")
  raise_if (leb valid_until now) (invalid "Valid until date must be in the future")
  modify (λ db. record db {
    exchange_rates = db.exchange_rates ++ new_rate now request valid_until ∷ [];
  })
  modify (λ db. record db { cache = uncache request.from_currency request.to_currency db.cache })
  pure (new_rate now request valid_until)
