-- ===== src/Base/Bits.antt =====
-- Shifts, `|` and `&` on words. The native operations mean a recursion on binary digits with
-- fuel; here are the laws that the code needs: `|` of fields that share no bit is a sum, and `&`
-- with a mask of low bits is a remainder.
use Prim.Native.Nat.{
  ℕ, zero, suc, ◌+◌, ◌-◌, ◌*◌, ◌/◌, ◌%◌, ◌^◌, ◌≤◌, ◌<◌, min, max, digits, bit_and, bit_or,
  bit_and-bitwise, bit_or-bitwise,
}
use mathlib.Core.Path.{◌≡◌, refl, ap}
use native.Mathlib.Nat.{pow-suc, one-le-pow}
use native.Mathlib.Omega.{arith}

-- Fuel beyond the number itself changes nothing.
module _ (z : ℕ → ℕ) (f : ℕ → ℕ → ℕ) where
  fuel_irrelevant : (a b k l : ℕ) → a ≤ k → a ≤ l → digits z f k a b ≡ digits z f l a b
  fuel_irrelevant zero b zero zero p q = refl
  fuel_irrelevant zero b zero (suc l) p q = refl
  fuel_irrelevant zero b (suc k) zero p q = refl
  fuel_irrelevant zero b (suc k) (suc l) p q = refl
  fuel_irrelevant (suc a) b zero l p q = absurd (omega arith)
  fuel_irrelevant (suc a) b (suc k) zero p q = absurd (omega arith)
  fuel_irrelevant (suc a) b (suc k) (suc l) p q =
      rw (fuel_irrelevant (suc a / 2) (b / 2) k l (omega arith) (omega arith))

or_digit : (a b : ℕ) → bit_or a b ≡ bit_or (a / 2) (b / 2) * 2 + max (a % 2) (b % 2)
or_digit zero b = omega (arith, bit_or-bitwise 0 b, bit_or-bitwise 0 (b / 2))
or_digit (suc a) b = omega (
  arith,
  bit_or-bitwise (suc a) b,
  bit_or-bitwise (suc a / 2) (b / 2),
  fuel_irrelevant (λ y. y) max (suc a / 2) (b / 2) a (suc a / 2) (omega arith) (omega arith),
)

and_digit : (a b : ℕ) → bit_and a b ≡ bit_and (a / 2) (b / 2) * 2 + min (a % 2) (b % 2)
and_digit zero b = omega (arith, bit_and-bitwise 0 b, bit_and-bitwise 0 (b / 2))
and_digit (suc a) b = omega (
  arith,
  bit_and-bitwise (suc a) b,
  bit_and-bitwise (suc a / 2) (b / 2),
  fuel_irrelevant (λ y. 0) min (suc a / 2) (b / 2) a (suc a / 2) (omega arith) (omega arith),
)

or_nothing : (fuel a : ℕ) → a ≤ fuel → bit_or a 0 ≡ a
or_nothing fuel zero h = refl
or_nothing zero (suc a) h = absurd (omega arith)
or_nothing (suc fuel) (suc a) h =
    omega (arith, or_digit (suc a) 0, or_nothing fuel (suc a / 2) (omega arith))

and_nothing : (fuel a : ℕ) → a ≤ fuel → bit_and a 0 ≡ 0
and_nothing fuel zero h = refl
and_nothing zero (suc a) h = absurd (omega arith)
and_nothing (suc fuel) (suc a) h =
    omega (arith, and_digit (suc a) 0, and_nothing fuel (suc a / 2) (omega arith))

double_pow : (q k : ℕ) → q * 2 ^ suc k ≡ 2 * (q * 2 ^ k)
double_pow q k = omega (arith, ap (λ (t : ℕ). q * t) (pow-suc 2 k))

-- `x << k`, before any cut to a width, and `x >> k`.
abbrev pub shl : ℕ → ℕ → ℕ
shl x k = x * 2 ^ k

abbrev pub shr : ℕ → ℕ → ℕ
shr x k = x / 2 ^ k

-- `(q << k) | r` is a sum when `r` fits in `k` bits.
pub bit_or-shl : (k q r : ℕ) → r < 2 ^ k → bit_or (shl q k) r ≡ q * 2 ^ k + r
bit_or-shl zero q r h = ground (arith, or_nothing q q)
bit_or-shl (suc k) q r h =
    ground (arith, double_pow q k, or_digit (q * 2 ^ suc k) r, bit_or-shl k q (r / 2) (omega arith))

low_part : (k q r : ℕ) → r < 2 ^ k → bit_and (q * 2 ^ k + r) (2 ^ k - 1) ≡ r
low_part zero q r h = ground (arith, and_nothing (q * 1 + r) (q * 1 + r))
low_part (suc k) q r h = ground (
  arith,
  double_pow q k,
  pow-suc 2 k,
  one-le-pow k 2,
  and_digit (q * 2 ^ suc k + r) (2 ^ suc k - 1),
  low_part k q (r / 2) (omega arith),
)

-- `x & (2^k - 1)` keeps the low `k` bits.
pub bit_and_low : (k x : ℕ) → bit_and x (2 ^ k - 1) ≡ x % 2 ^ k
bit_and_low k x = ground (arith, one-le-pow k 2, low_part k (x / 2 ^ k) (x % 2 ^ k))

or_comm_within : (fuel a b : ℕ) → a ≤ fuel → b ≤ fuel → bit_or a b ≡ bit_or b a
or_comm_within zero a b h k =
    let ea : a ≡ 0 = omega arith in let eb : b ≡ 0 = omega arith in rw (ea, eb) refl
or_comm_within (suc fuel) a b h k = omega (
  arith,
  or_digit a b,
  or_digit b a,
  or_comm_within fuel (a / 2) (b / 2) (omega arith) (omega arith),
)

pub bit_or_comm : (a b : ℕ) → bit_or a b ≡ bit_or b a
bit_or_comm a b = or_comm_within (max a b) a b (omega arith) (omega arith)
