-- ===== src/Rates/Cache.antt =====
-- What the cache of exchange rates answers (src/modules/payments/services/payment.service.ts).
use sohcahtoa_api.Prelude.{
  Text, text_eq, is_blank, text_eq_refl, text_eq_sound, text_eq_comm, ℕ, ◌+◌, ◌*◌, ◌==◌, ◌<◌, Bool,
  true, false, ◌||◌, none, some, List, [], ◌∷◌, ◌++◌, ◌≡◌, refl, ap, ◌∙◌, if◌then◌else◌, arith,
  Bool-cases, inl, inr,
}
use sohcahtoa_api.Errors.{ok}
use sohcahtoa_api.Exec.{result, after}
use sohcahtoa_api.Rates.{
  CachedRate, RateDb, RateRequest, ExchangeRate, has_key, rate_key, cached, uncache, put_rate,
  current_rate, rate_by, respond_from_cache, fetch_rate, get_exchange_rate, create_exchange_rate,
  respond, to_upper_case,
}

cached-put_rate :
    (now later : ℕ) (from to : Text) (rate : ℕ) (cache : List CachedRate)
    → later < now + 300 * 1000
    → cached later from to (put_rate now from to rate cache)
      ≡ some (record {
        key = rate_key from to;
        from_currency = from;
        to_currency = to;
        rate = rate;
        expires_at = now + 300 * 1000;
      })
unfolding cached put_rate has_key
cached-put_rate now later from to rate cache soon =
    rw (text_eq_refl (rate_key from to)) (ground arith)

module _ (t : ℕ) (from to : Text) (f g : Text) where
  abbrev same_key : Bool
  same_key = text_eq (rate_key f g) (rate_key from to)

  other_key : (c : CachedRate) → has_key from to c ≡ true → has_key f g c ≡ same_key
  unfolding has_key
  other_key c here =
      rw (
        text_eq_sound c.key (rate_key from to) here,
        text_eq_comm (rate_key from to) (rate_key f g),
      )

  cached-uncache :
      (cache : List CachedRate)
      → cached t from to (uncache f g cache) ≡ (if same_key then none else cached t from to cache)
  unfolding cached uncache
  cached-uncache [] = elim (Bool-cases same_key) [ inl same ↦ rw same | inr other ↦ rw other ]
  cached-uncache (c ∷ cs) =
      let rest = cached-uncache cs in
      elim (Bool-cases (has_key from to c)) [
        | inl here ↦ elim (Bool-cases same_key) [
          | inl same ↦ rw (other_key c here, same) (rest ∙ rw same)
          | inr other ↦ rw (other_key c here, other, here, rest, other)
        ]
        | inr away ↦ elim (Bool-cases (has_key f g c)) [
          | inl dropped ↦ rw (dropped, away) rest
          | inr stays ↦ rw (stays, away) rest
        ]
      ]

text_eq-rate_key :
    (f g from to : Text)
    → text_eq (rate_key f g) (rate_key from to) ≡ text_eq (f ++ 58 ∷ g) (from ++ 58 ∷ to)
unfolding text_eq
text_eq-rate_key f g from to = refl

module _ (now : ℕ) (from to : Text) (amount : ℕ) (db : RateDb) where
  get_exchange_rate-hit :
      (c : CachedRate)
      → cached now from to db.cache ≡ some c
      → get_exchange_rate now from to amount db ≡ (ok (respond_from_cache amount c), db)
  unfolding get_exchange_rate
  get_exchange_rate-hit c hit = ap (λ o. rate_by o now from to amount db) hit

  get_exchange_rate-miss :
      (row : ExchangeRate)
      → cached now from to db.cache ≡ none
      → current_rate now from to db ≡ some row
      → get_exchange_rate now from to amount db ≡ (
        ok (respond from to row.rate amount (some row.valid_until)),
        record db { cache = put_rate now from to row.rate db.cache },
      )
  unfolding get_exchange_rate fetch_rate
  get_exchange_rate-miss row missing current =
      ap (λ o. rate_by o now from to amount db) missing ∙ rw current

-- Of a pair whose rate is not cached and has a current row, the rate of the row is returned, and the
-- same rate for any amount during the next 300 seconds, whatever rows the table has then, but no
-- longer with the time until which the rate is valid.
pub get_exchange_rate_lem :
    (now later : ℕ) (from to : Text) (amount again : ℕ) (db : RateDb) (row : ExchangeRate)
    (rows : List ExchangeRate)
    → cached now from to db.cache ≡ none
    → current_rate now from to db ≡ some row
    → later < now + 300 * 1000
    → (result (get_exchange_rate now from to amount) db
        ≡ ok (respond from to row.rate amount (some row.valid_until)))
      × (result
            (get_exchange_rate later from to again)
            (record (after (get_exchange_rate now from to amount) db) { exchange_rates = rows })
          ≡ ok (respond from to row.rate again none))
get_exchange_rate_lem now later from to amount again db row rows missing current soon =
    let miss = get_exchange_rate-miss now from to amount db row missing current in
    let left : RateDb = record {
      exchange_rates = rows;
      cache = put_rate now from to row.rate db.cache;
    } in
    (
      ap (λ p. p.0) miss,
      ap
            (λ p.
              result (get_exchange_rate later from to again) (record p.1 { exchange_rates = rows }))
            miss
          ∙ ap (λ p. p.0)
              (get_exchange_rate-hit later from to again left _
                (cached-put_rate now later from to row.rate db.cache soon)),
    )

-- A valid request adds one active row, under the currencies in upper case. Of the cache it takes out
-- the rate of the currencies as they were written, and of no other pair but those that read the same
-- with a colon between the codes.
pub create_exchange_rate_lem :
    (now : ℕ) (request : RateRequest) (until : ℕ) (db : RateDb)
    → (is_blank request.from_currency || is_blank request.to_currency) ≡ false
    → (request.rate == 0) ≡ false
    → request.valid_until ≡ some until
    → now < until
    → (t : ℕ) (from to : Text)
    → let left = after (create_exchange_rate now request) db in
      (left.exchange_rates
        ≡ db.exchange_rates
          ++ record {
            from_currency = to_upper_case request.from_currency;
            to_currency = to_upper_case request.to_currency;
            rate = request.rate;
            valid_from = now;
            valid_until = until;
            is_active = true;
          }
            ∷ [])
      × (cached t from to left.cache ≡ (
          if text_eq (request.from_currency ++ 58 ∷ request.to_currency) (from ++ 58 ∷ to)
          then none
          else cached t from to db.cache))
unfolding create_exchange_rate
create_exchange_rate_lem now request until db named priced dated future t from to = (
  rw (named, priced, dated) (ground arith),
  rw (named, priced, dated)
      (let dropped = cached-uncache t from to request.from_currency request.to_currency db.cache in
        let key = text_eq-rate_key request.from_currency request.to_currency from to in
        ground arith),
)
