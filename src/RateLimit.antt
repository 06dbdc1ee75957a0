-- ===== src/RateLimit.antt =====
-- RedisRateLimiter of src/shared/middleware/rate-limiter.ts. Redis is not part of the repository: it
-- is the operations that the class calls, with their documented behaviour on one key whose window
-- has not ended.
pub mod Counts
use sohcahtoa_api.Prelude.{
  ℕ, zero, suc, ◌+◌, ◌-◌, ◌<◌, ◌==◌, leb, String, Bool, Option, none, some, ◌≡◌, if◌then◌else◌,
}

-- current ? parseInt(current) : 0
abbrev pub used_of : Option ℕ → ℕ
used_of none = 0
used_of (some n) = n

pub record Redis (S : Type 0) : Type 0 where
  pub incr : String → S → ℕ × S
  pub expire : String → ℕ → S → S
  pub get : String → S → Option ℕ
  pub del : String → S → S
  pub incr_counts : (key : String) (s : S) → (incr key s).0 ≡ suc (used_of (get key s))
  pub get-incr : (key : String) (s : S) → get key (incr key s).1 ≡ some (incr key s).0
  pub get-expire :
      (key : String) (seconds : ℕ) (s : S)
      → 0 < seconds
      → get key (expire key seconds s) ≡ get key s
  pub get-del : (key : String) (s : S) → get key (del key s) ≡ none

module _ {S : Type 0} (redis : Redis S) where
  unfoldable pub check_limit : String → ℕ → ℕ → S → Bool × S
  check_limit key limit window s =
      let current = (redis.incr key s).0 in
      let counted = (redis.incr key s).1 in
      (leb current limit, if current == 1 then redis.expire key window counted else counted)

  unfoldable pub get_remaining_attempts : String → ℕ → S → ℕ
  get_remaining_attempts key limit s = limit - used_of (redis.get key s)

  unfoldable pub reset_limit : String → S → S
  reset_limit key s = redis.del key s

  -- what n checks in a row leave, and how many of them the limiter let pass
  unfoldable pub checks : String → ℕ → ℕ → ℕ → S → S
  checks key limit window zero s = s
  checks key limit window (suc n) s = checks key limit window n (check_limit key limit window s).1

  unfoldable pub passed : String → ℕ → ℕ → ℕ → S → ℕ
  passed key limit window zero s = 0
  passed key limit window (suc n) s =
      let rest = passed key limit window n (check_limit key limit window s).1 in
      if (check_limit key limit window s).0 then suc rest else rest
