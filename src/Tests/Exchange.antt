-- ===== src/Tests/Exchange.antt =====
-- Exchange rates on concrete tables.
use sohcahtoa_api.Prelude.{
  Text, text_eq, true, none, some, [], ◌∷◌, ◌++◌, ◌≡◌, refl, if◌then◌else◌, arith,
}
use sohcahtoa_api.Errors.{ok}
use sohcahtoa_api.Exec.{result, after}
use sohcahtoa_api.Rates.{
  to_upper_case, RateDb, RateRequest, ExchangeRate, cached, uncache, has_key, rate_key,
  current_rate, respond, get_exchange_rate, create_exchange_rate, is_current, newest,
}
use sohcahtoa_api.Rates.Cache.{get_exchange_rate_lem, create_exchange_rate_lem}

abbrev usd : Text
usd = 85 ∷ 83 ∷ 68 ∷ []

-- the same in lower case
abbrev usd_lower : Text
usd_lower = 117 ∷ 115 ∷ 100 ∷ []

abbrev ngn : Text
ngn = 78 ∷ 71 ∷ 78 ∷ []

abbrev old_rate : ExchangeRate
old_rate = record {
  from_currency = usd;
  to_currency = ngn;
  rate = 1500;
  valid_from = 0;
  valid_until = 900000;
  is_active = true;
}

abbrev rates_db : RateDb
rates_db = record { exchange_rates = old_rate ∷ []; cache = [] }

missing : cached 10 usd ngn [] ≡ none
unfolding cached
missing = refl

current : current_rate 10 usd ngn rates_db ≡ some old_rate
unfolding current_rate is_current text_eq newest
current = refl

get_exchange_rate_lem_example :
    (result (get_exchange_rate 10 usd ngn 2) rates_db ≡ ok (respond usd ngn 1500 2 (some 900000)))
    × (result
          (get_exchange_rate 299000 usd ngn 3)
          (record (after (get_exchange_rate 10 usd ngn 2) rates_db) { exchange_rates = [] })
        ≡ ok (respond usd ngn 1500 3 none))
get_exchange_rate_lem_example =
    get_exchange_rate_lem 10 299000 usd ngn 2 3 rates_db old_rate [] missing current (omega arith)

abbrev new_request : RateRequest
new_request = record {
  from_currency = usd_lower;
  to_currency = ngn;
  rate = 1600;
  valid_until = some 950000;
}

abbrev cached_db : RateDb
cached_db = record {
  exchange_rates = old_rate ∷ [];
  cache =
      record {
        key = rate_key usd ngn;
        from_currency = usd;
        to_currency = ngn;
        rate = 1500;
        expires_at = 300010;
      }
      ∷ [];
}

create_exchange_rate_lem_example :
    ((after (create_exchange_rate 20 new_request) cached_db).exchange_rates
      ≡ old_rate
        ∷ record {
          from_currency = to_upper_case usd_lower;
          to_currency = to_upper_case ngn;
          rate = 1600;
          valid_from = 20;
          valid_until = 950000;
          is_active = true;
        }
        ∷ [])
    × (cached 30 usd ngn (after (create_exchange_rate 20 new_request) cached_db).cache ≡ (
        if text_eq (usd_lower ++ 58 ∷ ngn) (usd ++ 58 ∷ ngn)
        then none
        else cached 30 usd ngn cached_db.cache))
create_exchange_rate_lem_example =
    create_exchange_rate_lem 20 new_request 950000 cached_db refl refl refl (omega arith) 30 usd ngn

-- the old rate is answered although a newer one was created in lower case
get_exchange_rate_stale :
    result (get_exchange_rate 30 usd ngn 1) (after (create_exchange_rate 20 new_request) cached_db)
    ≡ ok (respond usd ngn 1500 1 none)
unfolding create_exchange_rate get_exchange_rate cached uncache has_key text_eq
get_exchange_rate_stale = refl
