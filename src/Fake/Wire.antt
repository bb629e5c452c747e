-- ===== src/Fake/Wire.antt =====
-- pkg/fake/clienthello.go: the byte-level helpers. A Go slice is a list of bytes; `append` makes
-- the longer list. Every length that the source cuts to 8 or 16 bits is cut here too.
use gecit_unofficial.Base.{
  ℕ, zero, suc, ◌+◌, ◌*◌, ◌==◌, if◌then◌else◌, Bool, Option, none, some, List, [], ◌∷◌, ◌++◌,
  length, bit_xor, shl, shr, u8, u16, u64, Bytes, put_uint16,
}

-- One round of xorshift64: state ^= state << 13; state ^= state >> 7; state ^= state << 17.
unfoldable pub xorshift_step : ℕ → ℕ
xorshift_step state =
    let s1 = bit_xor state (u64 (shl state 13)) in
    let s2 = bit_xor s1 (shr s1 7) in bit_xor s2 (u64 (shl s2 17))

-- for i := range dst { ...; dst[i] = byte(state) }
unfoldable pub xorshift_fill : ℕ → ℕ → Bytes
xorshift_fill zero state = []
xorshift_fill (suc n) state = let s = xorshift_step state in u8 s ∷ xorshift_fill n s

-- What crypto/rand put into the buffer: byte i is `f i`.
unfoldable pub random_fill : ℕ → ℕ → (ℕ → ℕ) → Bytes
random_fill zero i f = []
random_fill (suc n) i f = u8 (f i) ∷ random_fill n (i + 1) f

-- `fillBytes` on a buffer of `n` bytes. `read` is the outcome of rand.Read: `none` is an error.
unfoldable pub fill_bytes : ℕ → Bool → ℕ → Option (ℕ → ℕ) → Bytes
fill_bytes n use_crypto_random seed read =
    let fallback = xorshift_fill n (if seed == 0 then 1 else seed) in
    if use_crypto_random
    then (elim read [ none ↦ fallback | some f ↦ random_fill n 0 f ])
    else fallback

unfoldable pub append_uint16 : Bytes → ℕ → Bytes
append_uint16 dst v = dst ++ put_uint16 v

-- for _, v := range values { dst = appendUint16(dst, v) }
unfoldable pub append_each : Bytes → List ℕ → Bytes
append_each dst [] = dst
append_each dst (v ∷ vs) = append_each (append_uint16 dst v) vs

unfoldable pub append_uint16_list : Bytes → List ℕ → Bytes
append_uint16_list dst values = append_each (append_uint16 dst (u16 (length values * 2))) values

unfoldable pub append_extension : Bytes → ℕ → Bytes → Bytes
append_extension dst ext_type body =
    append_uint16 (append_uint16 dst ext_type) (u16 (length body)) ++ body

unfoldable pub uint16_vector : List ℕ → Bytes
uint16_vector values = append_each (append_uint16 [] (u16 (length values * 2))) values

unfoldable pub server_name_extension : Bytes → Bytes
server_name_extension name =
    let list_len = 1 + 2 + length name in
    append_uint16 (append_uint16 [] (u16 list_len) ++ 0x00 ∷ []) (u16 (length name)) ++ name

-- for _, proto := range protocols
unfoldable pub alpn_list : Bytes → List Bytes → Bytes
alpn_list out [] = out
alpn_list out (proto ∷ protocols) = alpn_list ((out ++ u8 (length proto) ∷ []) ++ proto) protocols

unfoldable pub alpn_extension : List Bytes → Bytes
alpn_extension protocols =
    let out = alpn_list [] protocols in append_uint16 [] (u16 (length out)) ++ out

unfoldable pub version_extension : List ℕ → Bytes
version_extension versions = append_each (u8 (length versions * 2) ∷ []) versions

unfoldable pub key_share_extension : ℕ → Bytes → Bytes
key_share_extension group key =
    let entry_len = 2 + 2 + length key in
    append_uint16 (append_uint16 (append_uint16 [] (u16 entry_len)) group) (u16 (length key)) ++ key
