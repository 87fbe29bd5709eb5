-- ===== src/Common/Int.antt =====
-- Signed 64-bit integers as numbers with a sign, and the conversions between int64 and uint64.
use Prim.Native.Nat.{ℕ, ◌+◌, ◌-◌, ◌^◌, ◌%◌, ◌<◌}
use mathlib.Core.Path.{◌≡◌}
use mathlib.Core.Bool.{Bool, false}
use native.Mathlib.Omega.{arith}
use wire_gold.Common.Tests.{ltb, leb, if◌then◌else◌}

-- `negsuc n` is -(n + 1).
pub data ℤ : Type 0 where
  pos : ℕ → ℤ
  negsuc : ℕ → ℤ

-- z - n
unfoldable pub sub_int : ℤ → ℕ → ℤ
sub_int (pos m) n = if leb n m then pos (m - n) else negsuc (n - m - 1)
sub_int (negsuc m) n = negsuc (m + n)

-- z > 0
unfoldable pub is_positive : ℤ → Bool
is_positive (pos n) = ltb 0 n
is_positive (negsuc n) = false

-- int64(w) and uint64(z)
unfoldable pub to_int64 : ℕ → ℤ
to_int64 w = if ltb w (2 ^ 63) then pos w else negsuc (2 ^ 64 - w - 1)

unfoldable pub to_uint64 : ℤ → ℕ
to_uint64 (pos n) = n % 2 ^ 64
to_uint64 (negsuc n) = (2 ^ 64 - 1) - n % 2 ^ 64

pub to_uint64-to_int64 : (w : ℕ) → w < 2 ^ 64 → to_uint64 (to_int64 w) ≡ w
unfolding to_uint64 to_int64
to_uint64-to_int64 w h = ground arith
