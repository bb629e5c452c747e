-- ===== src/Rawsock/Sums.antt =====
-- The checksum in plain arithmetic: the sum of the 16-bit words, reduced modulo 65535 to a
-- residue that is 0 for the sum 0 only.
use gecit_unofficial.Base.{
  ℕ, suc, ◌+◌, ◌*◌, ◌/◌, ◌%◌, ◌≤◌, ◌<◌, bit_and, bit_or, ◌≡◌, [], ◌∷◌, arith, ◌==◌, if◌then◌else◌,
  shl, shr, bit_or-shl, bit_and_low, length, Bytes, IsBytes, u32, ◌-◌, ◌++◌, ◌⊎◌,
}
use gecit_unofficial.Rawsock.Checksum.{sum_words, fold_carries, checksum}

-- The sum of the big-endian words, an odd last byte counted as the high one.
unfoldable pub word_sum : Bytes → ℕ
word_sum [] = 0
word_sum (a ∷ []) = a * 256
word_sum (a ∷ b ∷ rest) = a * 256 + b + word_sum rest

pub word_sum-le : (bytes : Bytes) → IsBytes bytes → word_sum bytes ≤ 32768 * length bytes + 32768
unfolding word_sum
word_sum-le [] h = omega arith
word_sum-le (a ∷ []) h = omega arith
word_sum-le (a ∷ b ∷ rest) h = omega (arith, word_sum-le rest h.1.1)

sum_words-word_sum :
    (bytes : Bytes) (sum : ℕ)
    → IsBytes bytes
    → sum + word_sum bytes < 4294967296
    → sum_words sum bytes ≡ sum + word_sum bytes
unfolding sum_words word_sum
sum_words-word_sum [] sum h k = omega arith
sum_words-word_sum (a ∷ []) sum h k = omega arith
sum_words-word_sum (a ∷ b ∷ rest) sum h k =
    let e : u32 (sum + bit_or (u32 (shl a 8)) b) ≡ sum + (a * 256 + b) =
      ground (arith, bit_or-shl 8 a b) in
    rw e (omega (arith, sum_words-word_sum rest (sum + (a * 256 + b)) h.1.1 (omega arith)))

-- What a round leaves: the residue modulo 65535, zero for zero only.
abbrev pub Residue : ℕ → ℕ → Type 0
Residue sum r = (r % 65535 ≡ sum % 65535) × (((sum ≡ 0) × (r ≡ 0)) ⊎ ((0 < sum) × (0 < r)))

round_mask : (sum : ℕ) → bit_and sum 0xFFFF ≡ sum % 65536
round_mask sum = bit_and_low 16 sum

fold_step :
    (fuel sum : ℕ)
    → sum < 4294967296
    → fold_carries (suc fuel) sum
      ≡ (if sum / 65536 == 0 then sum else fold_carries fuel (sum % 65536 + sum / 65536))
unfolding fold_carries
fold_step fuel sum h =
    let e : u32 (bit_and sum 0xFFFF + shr sum 16) ≡ sum % 65536 + sum / 65536 =
      omega (arith, round_mask sum) in
    rw e (ground arith)

-- For a 32-bit sum the folding loop ends by its own test within three rounds, on a residue of the
-- sum.
pub fold_carries_lem :
    (sum : ℕ) → sum < 4294967296 → (fold_carries 3 sum < 65536) × Residue sum (fold_carries 3 sum)
fold_carries_lem sum h =
    let s1 = sum % 65536 + sum / 65536 in
    let s2 = s1 % 65536 + s1 / 65536 in
    ground (arith, fold_step 2 sum h, fold_step 1 s1, fold_step 0 s2)

-- Segments of even length add up.
pub word_sum-append :
    (xs ys : Bytes) → length xs % 2 ≡ 0 → word_sum (xs ++ ys) ≡ word_sum xs + word_sum ys
unfolding word_sum
word_sum-append [] ys h = omega arith
word_sum-append (a ∷ []) ys h = absurd (omega arith)
word_sum-append (a ∷ b ∷ xs) ys h = omega (arith, word_sum-append xs ys (omega arith))

pub checksum-word_sum :
    (bytes : Bytes)
    → IsBytes bytes
    → word_sum bytes < 4294967296
    → checksum bytes ≡ 65535 - fold_carries 3 (word_sum bytes)
unfolding checksum
checksum-word_sum bytes h k =
    let (small, _) = fold_carries_lem (word_sum bytes) k in
    let e : sum_words 0 bytes ≡ word_sum bytes =
      omega (arith, sum_words-word_sum bytes 0 h (omega arith)) in
    rw e (omega (arith, small))
