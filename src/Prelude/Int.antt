-- ===== src/Prelude/Int.antt =====
-- Signed amounts: integers over the native numbers.
use Prim.Native.Nat.{ℕ, suc, ◌-◌}
use mathlib.Core.Path.{◌≡◌}
use native.Mathlib.Omega.{arith}
use sohcahtoa_api.Prelude.Tests.{leb, if◌then◌else◌}

-- `negsuc n` is -(n + 1).
pub data ℤ : Type 0 where
  pos : ℕ → ℤ
  negsuc : ℕ → ℤ

-- a - b, as an integer.
abbrev pub sub_ℕ : ℕ → ℕ → ℤ
sub_ℕ a b = if leb b a then pos (a - b) else negsuc (b - a - 1)

-- Math.abs
abbrev pub nat_abs : ℤ → ℕ
nat_abs (pos n) = n
nat_abs (negsuc n) = suc n

-- The distance of two numbers is symmetric.
pub nat_abs-sub_ℕ_comm : (a b : ℕ) → nat_abs (sub_ℕ a b) ≡ nat_abs (sub_ℕ b a)
nat_abs-sub_ℕ_comm a b = ground arith
