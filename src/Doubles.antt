-- ===== src/Doubles.antt =====
-- The double-precision numbers of JavaScript, where the code compares amounts: those of decimals with
-- at most four places, and their rounded sums, quotients and differences. All are multiples of 2^-66.
use sohcahtoa_api.Prelude.{
  ℕ, zero, suc, ◌+◌, ◌-◌, ◌*◌, ◌/◌, ◌%◌, ltb, true, false, ℤ, sub_ℕ, if◌then◌else◌,
}

-- 2^53
abbrev two_53 : ℕ
two_53 = 9007199254740992

-- 2^66
abbrev two_66 : ℕ
two_66 = 73786976294838206464

-- the integer nearest to n / d, the even one of two
unfoldable pub round_half_even : ℕ → ℕ → ℕ
round_half_even n d =
    let q = n / d in
    let r = n % d in if ltb (2 * r) d then q else if ltb d (2 * r) then q + 1 else q + q % 2

-- n / d with 53 significant bits. The fuel bounds the power of 2 by which it is too large: 1024,
-- the largest exponent of a double, is enough.
unfoldable pub significant : ℕ → ℕ → ℕ → ℕ
significant zero n d = round_half_even n d
significant (suc fuel) n d = elim (ltb n (two_53 * d)) [
  | true ↦ round_half_even n d
  | false ↦ 2 * significant fuel n (2 * d)
]

-- the double of n ten-thousandths, in units of 2^-66
unfoldable pub double : ℕ → ℕ
unfolding significant round_half_even
double n = significant 1024 (n * two_66) 10000

-- a + b
unfoldable pub plus : ℕ → ℕ → ℕ
unfolding significant round_half_even
plus a b = significant 1024 (a + b) 1

-- a / b, exact to 2^-66 where it is small
unfoldable pub quotient : ℕ → ℕ → ℕ
unfolding significant round_half_even
quotient a b = significant 1024 (a * two_66) b

-- a - b on doubles in units of 2^-66
unfoldable pub minus : ℕ → ℕ → ℤ
unfolding significant round_half_even
minus a b = sub_ℕ (significant 1024 (a - b) 1) (significant 1024 (b - a) 1)
