-- ===== src/Base/Words.antt =====
-- Bytes and big-endian words (Go's encoding/binary and the shifts that the sources write out).
use Prim.Native.Nat.{ℕ, ◌+◌, ◌*◌, ◌%◌, ◌<◌, bit_or}
use mathlib.Core.Path.{◌≡◌}
use mathlib.Core.List.{List, [], ◌∷◌}
use native.Mathlib.Omega.{arith}
use gecit_unofficial.Base.Lists.{All}
use gecit_unofficial.Base.Bits.{shl, shr, bit_or-shl}

abbrev pub Bytes : Type 0
Bytes = List ℕ

abbrev pub IsByte : ℕ → Type 0
IsByte b = b < 256

abbrev pub IsBytes : Bytes → Type 0
IsBytes = All IsByte

-- byte(v), uint16(v), uint32(v), uint64(v)
abbrev pub u8 : ℕ → ℕ
u8 v = v % 256

abbrev pub u16 : ℕ → ℕ
u16 v = v % 65536

abbrev pub u32 : ℕ → ℕ
u32 v = v % 4294967296

abbrev pub u64 : ℕ → ℕ
u64 v = v % 18446744073709551616

-- binary.BigEndian.PutUint16 and PutUint32
abbrev pub put_uint16 : ℕ → Bytes
put_uint16 v = u8 (shr v 8) ∷ u8 v ∷ []

abbrev pub put_uint32 : ℕ → Bytes
put_uint32 v = u8 (shr v 24) ∷ u8 (shr v 16) ∷ u8 (shr v 8) ∷ u8 v ∷ []

-- int(a)<<8 | int(b)
unfoldable pub be16 : ℕ → ℕ → ℕ
be16 a b = bit_or (shl a 8) b

-- int(a)<<16 | int(b)<<8 | int(c)
unfoldable pub be24 : ℕ → ℕ → ℕ → ℕ
be24 a b c = bit_or (bit_or (shl a 16) (shl b 8)) c

pub be16_lem : (a b : ℕ) → b < 256 → be16 a b ≡ a * 256 + b
unfolding be16
be16_lem a b h = bit_or-shl 8 a b h

pub be24_lem : (a b c : ℕ) → b < 256 → c < 256 → be24 a b c ≡ a * 65536 + b * 256 + c
unfolding be24
be24_lem a b c h k = rw (bit_or-shl 16 a (b * 256) (omega arith)) (
    let e : a * 65536 + b * 256 ≡ (a * 256 + b) * 256 = omega arith in
    rw e (bit_or-shl 8 (a * 256 + b) c k))

-- A uint16 reads back from its two bytes, and a 24-bit length from its three.
pub be16-put : (v : ℕ) → v < 65536 → be16 (u8 (shr v 8)) (u8 v) ≡ v
be16-put v h = omega (arith, be16_lem (u8 (shr v 8)) (u8 v) (omega arith))

pub be24-put : (v : ℕ) → v < 16777216 → be24 (u8 (shr v 16)) (u8 (shr v 8)) (u8 v) ≡ v
be24-put v h =
    omega (arith, be24_lem (u8 (shr v 16)) (u8 (shr v 8)) (u8 v) (omega arith) (omega arith))
