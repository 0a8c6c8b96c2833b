-- ===== src/Common/Int.antt =====
-- Signed sizes (`i64`): `negsuc n` is -(n + 1). Sizes are only compared with 0 and with each other.
use Prim.Native.Nat.{ℕ, zero, suc, ◌-◌, ◌%◌, ◌^◌, ◌<◌}
use mathlib.Core.Path.{◌≡◌}
use native.Mathlib.Omega.{arith}
use mathlib.Core.Bool.{Bool, true, false}
use flowi_vfs.Common.Tests.{◌==◌, ltb, if◌then◌else◌}

pub data ℤ : Type 0 where
  pos : ℕ → ℤ
  negsuc : ℕ → ℤ

-- `z < 0`
abbrev pub is_negative : ℤ → Bool
is_negative (pos n) = false
is_negative (negsuc n) = true

-- `z > 0`
abbrev pub is_positive : ℤ → Bool
is_positive (pos zero) = false
is_positive (pos (suc n)) = true
is_positive (negsuc n) = false

abbrev pub eqz : ℤ → ℤ → Bool
eqz (pos a) (pos b) = a == b
eqz (negsuc a) (negsuc b) = a == b
eqz (pos a) (negsuc b) = false
eqz (negsuc a) (pos b) = false

-- The value of an `n`-bit pattern as a two's complement number.
unfoldable pub signed : ℕ → ℕ → ℤ
signed n x = let m = x % 2 ^ n in if ltb m (2 ^ (n - 1)) then pos m else negsuc (2 ^ n - m - 1)

pub signed_32 : (n : ℕ) → n < 2 ^ 31 → signed 32 n ≡ pos n
unfolding signed
signed_32 n lt = ground arith

pub signed_64 : (n : ℕ) → n < 2 ^ 63 → signed 64 n ≡ pos n
unfolding signed
signed_64 n lt = ground arith
