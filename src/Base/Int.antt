-- ===== src/Base/Int.antt =====
-- Go's `int`, as far as it is compared: a number or the negative of one.
use Prim.Native.Nat.{ℕ, ◌-◌, ◌%◌, ◌^◌}
use mathlib.Core.Bool.{Bool, true, false}
use gecit_unofficial.Base.Tests.{ltb, ◌==◌}

-- `negsuc n` is -(n + 1).
pub data ℤ : Type 0 where
  pos : ℕ → ℤ
  negsuc : ℕ → ℤ

-- x == 0
abbrev pub is_zero : ℤ → Bool
is_zero (pos n) = n == 0
is_zero (negsuc n) = false

-- x < k and x > k, for a constant k that is not negative and above 0 in the first
abbrev pub ltb_ℤ : ℤ → ℕ → Bool
ltb_ℤ (pos n) k = ltb n k
ltb_ℤ (negsuc n) k = true

abbrev pub gtb_ℤ : ℤ → ℕ → Bool
gtb_ℤ (pos n) k = ltb k n
gtb_ℤ (negsuc n) k = false

-- uint16(x), uint32(x) of an int: what is left modulo 2^w
abbrev pub wrap_int : ℕ → ℤ → ℕ
wrap_int w (pos n) = n % 2 ^ w
wrap_int w (negsuc n) = 2 ^ w - 1 - n % 2 ^ w
