-- ===== src/Rawsock/Verify.antt =====
-- The receiver's check: summing over a segment that carries its checksum gives zero.
use gecit_unofficial.Base.{
  ℕ, ◌+◌, ◌%◌, ◌<◌, ◌≡◌, ◌∷◌, ◌++◌, arith, shr, length, length-append, All-append, Bytes, IsByte,
  IsBytes, u8,
}
use gecit_unofficial.Rawsock.Sums.{
  word_sum, word_sum-le, word_sum-append, checksum-word_sum, fold_carries_lem,
}
use gecit_unofficial.Rawsock.Checksum.{checksum}

pub checksum-lt : (bytes : Bytes) → checksum bytes < 65536
unfolding checksum
checksum-lt bytes = omega arith

filled_sum :
    (pre post : Bytes) (v : ℕ)
    → length pre % 2 ≡ 0
    → v < 65536
    → word_sum (pre ++ (u8 (shr v 8) ∷ u8 v ∷ post)) ≡ word_sum (pre ++ (0 ∷ 0 ∷ post)) + v
unfolding word_sum
filled_sum pre post v even h = omega (
  arith,
  word_sum-append pre (u8 (shr v 8) ∷ u8 v ∷ post) even,
  word_sum-append pre (0 ∷ 0 ∷ post) even,
)

-- The check of RFC 1071 in plain arithmetic: the one's complement sum of the words is all ones,
-- that is, their sum is positive and a multiple of 65535.
abbrev pub PassesCheck : Bytes → Type 0
PassesCheck bytes = (0 < word_sum bytes) × (word_sum bytes % 65535 ≡ 0)

-- A segment of fewer than 131002 bytes whose checksum field at an even offset is zero passes the
-- check once the field holds the checksum of that segment.
pub checksum_verifies :
    (pre post : Bytes)
    → length pre % 2 ≡ 0
    → IsBytes pre
    → IsBytes post
    → length pre + length post < 131000
    → let cs = checksum (pre ++ (0 ∷ 0 ∷ post)) in
      PassesCheck (pre ++ (u8 (shr cs 8) ∷ u8 cs ∷ post))
checksum_verifies pre post even hpre hpost small =
    let before = pre ++ (0 ∷ 0 ∷ post) in
    let cs = checksum before in
    let before_bytes : IsBytes before =
      All-append IsByte pre (0 ∷ 0 ∷ post) hpre (omega arith, (omega arith, hpost)) in
    let bound = word_sum-le before before_bytes in
    let size = length-append pre (0 ∷ 0 ∷ post) in
    let sum = filled_sum pre post cs even (checksum-lt before) in
    let value = checksum-word_sum before before_bytes (omega (arith, bound, size)) in
    let (folded, residue) = fold_carries_lem (word_sum before) (omega (arith, bound, size)) in
    (ground (arith, value, sum, folded, residue), ground (arith, value, sum, folded, residue))
