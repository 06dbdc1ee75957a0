-- ===== src/RateLimit/Counts.antt =====
-- How many requests RedisRateLimiter of src/shared/middleware/rate-limiter.ts lets pass.
use sohcahtoa_api.Prelude.{
  ℕ, zero, suc, ◌+◌, ◌-◌, min, ◌<◌, ◌==◌, leb, String, Bool, true, false, ◌≡◌, refl, ap, ◌∙◌,
  if◌then◌else◌, arith,
}
use sohcahtoa_api.RateLimit.{
  Redis, used_of, check_limit, get_remaining_attempts, reset_limit, checks, passed,
}

module _ {S : Type 0} (redis : Redis S) (key : String) (limit window : ℕ) (opens : 0 < window) where
  get-if :
      (b : Bool) (s : S)
      → redis.get key (if b then redis.expire key window s else s) ≡ redis.get key s
  get-if true s = redis.get-expire key window s opens
  get-if false s = refl

  used-check :
      (s : S)
      → used_of (redis.get key (check_limit redis key limit window s).1)
        ≡ suc (used_of (redis.get key s))
  unfolding check_limit
  used-check s =
      ap used_of (get-if ((redis.incr key s).0 == 1) (redis.incr key s).1 ∙ redis.get-incr key s)
      ∙ redis.incr_counts key s

  allowed-check :
      (s : S)
      → (check_limit redis key limit window s).0 ≡ leb (suc (used_of (redis.get key s))) limit
  unfolding check_limit
  allowed-check s = ap (λ n. leb n limit) (redis.incr_counts key s)

  remaining-check :
      (s : S)
      → get_remaining_attempts redis key limit (check_limit redis key limit window s).1
        ≡ get_remaining_attempts redis key limit s - 1
  unfolding get_remaining_attempts
  remaining-check s = let counted = used-check s in omega arith

  remaining-checks :
      (n : ℕ) (s : S)
      → get_remaining_attempts redis key limit (checks redis key limit window n s)
        ≡ get_remaining_attempts redis key limit s - n
  unfolding checks
  remaining-checks zero s = omega arith
  remaining-checks (suc n) s =
      let later = remaining-checks n (check_limit redis key limit window s).1 in
      let one = remaining-check s in omega arith

  passed_and_left :
      (n : ℕ) (s : S)
      → passed redis key limit window n s
          + get_remaining_attempts redis key limit (checks redis key limit window n s)
        ≡ get_remaining_attempts redis key limit s
  unfolding checks passed get_remaining_attempts
  passed_and_left zero s = omega arith
  passed_and_left (suc n) s =
      let later = passed_and_left n (check_limit redis key limit window s).1 in
      let counted = used-check s in let allowed = allowed-check s in ground arith

  passed_least :
      (n : ℕ) (s : S)
      → passed redis key limit window n s ≡ min n (get_remaining_attempts redis key limit s)
  passed_least n s =
      let shared = passed_and_left n s in let left = remaining-checks n s in omega arith

  remaining-reset :
      (s : S) → get_remaining_attempts redis key limit (reset_limit redis key s) ≡ limit
  unfolding get_remaining_attempts reset_limit
  remaining-reset s = rw (redis.get-del key s) (omega arith)

  -- For a window of positive length that does not end meanwhile: of a number of requests in a row,
  -- as many pass as attempts remained before them, or all of them if there are fewer; each takes one
  -- of the attempts as long as any remain; and after the limit is reset the attempts that count are
  -- those of the limit.
  pub passed_lem :
      (n : ℕ) (s : S)
      → (passed redis key limit window n s ≡ min n (get_remaining_attempts redis key limit s))
        × (get_remaining_attempts redis key limit (checks redis key limit window n s)
            ≡ get_remaining_attempts redis key limit s - n)
        × (passed redis key limit window n (reset_limit redis key s) ≡ min n limit)
  passed_lem n s = (
    passed_least n s,
    remaining-checks n s,
    passed_least n (reset_limit redis key s) ∙ ap (min n) (remaining-reset s),
  )
