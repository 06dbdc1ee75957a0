-- ===== src/Tests/Limiter.antt =====
-- The rate limiter over a Redis that holds the counter of one key.
use sohcahtoa_api.Prelude.{ℕ, zero, suc, ◌-◌, min, ◌<◌, Option, none, some, ◌≡◌, refl, arith}
use sohcahtoa_api.RateLimit.{
  Redis, used_of, get_remaining_attempts, reset_limit, checks, passed, check_limit,
}
use sohcahtoa_api.RateLimit.Counts.{passed_lem}

abbrev expire_cell : ℕ → Option ℕ → Option ℕ
expire_cell zero s = none
expire_cell (suc n) s = s

expire_cell-get : (seconds : ℕ) (s : Option ℕ) → 0 < seconds → expire_cell seconds s ≡ s
expire_cell-get zero s positive = ground arith
expire_cell-get (suc n) s positive = refl

abbrev cell : Redis (Option ℕ)
cell = record {
  incr = λ key s. (suc (used_of s), some (suc (used_of s)));
  expire = λ key seconds s. expire_cell seconds s;
  get = λ key s. s;
  del = λ key s. none;
  incr_counts = λ key s. refl;
  get-incr = λ key s. refl;
  get-expire = λ key seconds s positive. expire_cell-get seconds s positive;
  get-del = λ key s. refl;
}

-- three requests, when two of five attempts remain
passed_lem_example :
    (passed cell "login" 5 900 3 (some 3) ≡ min 3 (get_remaining_attempts cell "login" 5 (some 3)))
    × (get_remaining_attempts cell "login" 5 (checks cell "login" 5 900 3 (some 3))
        ≡ get_remaining_attempts cell "login" 5 (some 3) - 3)
    × (passed cell "login" 5 900 3 (reset_limit cell "login" (some 3)) ≡ min 3 5)
passed_lem_example = passed_lem cell "login" 5 900 (omega arith) 3 (some 3)

passed-login : passed cell "login" 5 900 3 (some 3) ≡ 2
unfolding passed check_limit
passed-login = refl
