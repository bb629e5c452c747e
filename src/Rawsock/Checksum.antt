-- ===== src/Rawsock/Checksum.antt =====
-- pkg/rawsock/rawsock.go: Checksum (RFC 1071).
use gecit_unofficial.Base.{
  ℕ, zero, suc, ◌+◌, ◌-◌, bit_and, bit_or, [], ◌∷◌, ◌==◌, if◌then◌else◌, shl, shr, Bytes, u16, u32,
}

-- for i := 0; i+1 < len(data); i += 2, and the odd byte behind it. `sum` is a uint32.
unfoldable pub sum_words : ℕ → Bytes → ℕ
sum_words sum [] = sum
sum_words sum (a ∷ []) = u32 (sum + u32 (shl a 8))
sum_words sum (a ∷ b ∷ rest) = sum_words (u32 (sum + bit_or (u32 (shl a 8)) b)) rest

-- for sum>>16 != 0, with fuel for the rounds
unfoldable pub fold_carries : ℕ → ℕ → ℕ
fold_carries zero sum = sum
fold_carries (suc fuel) sum =
    let next = fold_carries fuel (u32 (bit_and sum 0xFFFF + shr sum 16)) in
    if shr sum 16 == 0 then sum else next

-- Three rounds are enough for every uint32.
unfoldable pub checksum : Bytes → ℕ
checksum bytes = 65535 - u16 (fold_carries 3 (sum_words 0 bytes))
