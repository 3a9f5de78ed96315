-- ===== src/Common/Words.antt =====
-- The 64 bits of an int64.
use Prim.Native.Nat.{ℕ, ◌-◌, ◌^◌, ◌<◌}
use mathlib.Core.Path.{◌≡◌, refl}
use mathlib.Core.Bool.{true}
use native.Mathlib.Omega.{arith}
use pali.Common.Tests.{ℤ, if◌then◌else◌, ltb}

-- The int64 with these 64 bits.
unfoldable pub signed : ℕ → ℤ
signed bits = if ltb bits (2 ^ 63) then ℤ.pos bits else ℤ.negsuc (2 ^ 64 - bits - 1)

pub signed_small : (n : ℕ) → n < 2 ^ 63 → signed n ≡ ℤ.pos n
unfolding signed
signed_small n h = let below : ltb n (2 ^ 63) ≡ true = ground arith in rw below refl
