-- ===== src/Rawsock/Headers.antt =====
-- The headers that BuildPacket writes, for a connection between two IPv4 addresses.
use gecit_unofficial.Base.{
  ℕ, ◌+◌, ◌≡◌, some, [], ◌∷◌, ◌++◌, Bytes, IsBytes, u8, u16, refl, arith, shr, length, set,
  length-append, ap,
}
use gecit_unofficial.Rawsock.Packet.{
  Platform, ConnInfo, to4, ip_header_put_uint16, ip_header_fields, linux, darwin, windows,
  build_ip_header,
}
use gecit_unofficial.Rawsock.Checksum.{checksum}
use gecit_unofficial.Rawsock.Verify.{checksum_verifies, PassesCheck}

-- The address has the IPv4 form a.b.c.d.
pub record IsQuad (ip : Bytes) (a b c d : ℕ) : Type 0 where
  pub form : to4 ip ≡ some (a ∷ b ∷ c ∷ d ∷ [])
  pub bytes : IsBytes (a ∷ b ∷ c ∷ d ∷ [])

-- To4 gives four bytes.
pub to4_four :
    (ip q : Bytes)
    → to4 ip ≡ some q
    → (a : ℕ) × (b : ℕ) × (c : ℕ) × (d : ℕ) × (q ≡ a ∷ b ∷ c ∷ d ∷ [])
unfolding to4
to4_four (a ∷ b ∷ c ∷ d ∷ []) q h = (a, b, c, d, ground (arith, h))
to4_four (z0 ∷ z1 ∷ z2 ∷ z3 ∷ z4 ∷ z5 ∷ z6 ∷ z7 ∷ z8 ∷ z9 ∷ x ∷ y ∷ a ∷ b ∷ c ∷ d ∷ []) q h =
    (a, b, c, d, ground (arith, h))
to4_four _ q h = absurd (ground (arith, h))

-- The IP header around its checksum.
abbrev pub ip_front : Platform → ℕ → ℕ → Bytes
ip_front platform ttl n =
    0x45
    ∷ 0
    ∷ (ip_header_put_uint16 platform (u16 (20 + n))
        ++ (ip_header_put_uint16 platform 0x1234 ++ (0 ∷ 0 ∷ u8 ttl ∷ 6 ∷ [])))

module _ (conn : ConnInfo) (ttl : ℕ) {a b c d e f g h : ℕ} (src : IsQuad conn.src_ip a b c d)
    (dst : IsQuad conn.dst_ip e f g h) where
  abbrev pub ip_back : Bytes
  ip_back = a ∷ b ∷ c ∷ d ∷ e ∷ f ∷ g ∷ h ∷ []

  ip_header_fields-layout :
      (platform : Platform) (n : ℕ)
      → ip_header_fields platform conn ttl n ≡ ip_front platform ttl n ++ (0 ∷ 0 ∷ ip_back)
  unfolding ip_header_fields ip_header_put_uint16
  ip_header_fields-layout linux n = rw (src.form, dst.form)
  ip_header_fields-layout darwin n = rw (src.form, dst.form)
  ip_header_fields-layout windows n = rw (src.form, dst.form)

  -- A word put into the two bytes of the checksum field.
  set_checksum :
      (platform : Platform) (n hi lo : ℕ)
      → set (set (ip_front platform ttl n ++ (0 ∷ 0 ∷ ip_back)) 10 hi) 11 lo
        ≡ ip_front platform ttl n ++ (hi ∷ lo ∷ ip_back)
  unfolding ip_header_put_uint16
  set_checksum linux n hi lo = refl
  set_checksum darwin n hi lo = refl
  set_checksum windows n hi lo = refl

  pub build_ip_header-layout :
      (platform : Platform) (n : ℕ)
      → let cs = checksum (ip_front platform ttl n ++ (0 ∷ 0 ∷ ip_back)) in
        build_ip_header platform conn ttl n
        ≡ ip_front platform ttl n ++ (u8 (shr cs 8) ∷ u8 cs ∷ ip_back)
  unfolding build_ip_header
  build_ip_header-layout platform n =
      rw (ip_header_fields-layout platform n) (set_checksum platform n _ _)

  ip_front-IsBytes : (platform : Platform) (n : ℕ) → IsBytes (ip_front platform ttl n)
  unfolding ip_header_put_uint16
  ip_front-IsBytes linux n = omega arith
  ip_front-IsBytes darwin n = omega arith
  ip_front-IsBytes windows n = omega arith

  ip_front-length : (platform : Platform) (n : ℕ) → length (ip_front platform ttl n) ≡ 10
  unfolding ip_header_put_uint16
  ip_front-length linux n = refl
  ip_front-length darwin n = refl
  ip_front-length windows n = refl

  -- For a connection between two IPv4 addresses: the IP header passes the receiver's checksum on
  -- every platform.
  pub build_ip_header_verifies :
      (platform : Platform) (n : ℕ) → PassesCheck (build_ip_header platform conn ttl n)
  build_ip_header_verifies platform n = rw (build_ip_header-layout platform n) (
      checksum_verifies (ip_front platform ttl n) ip_back
        (omega (arith, ip_front-length platform n)) (ip_front-IsBytes platform n)
        (omega (arith, src.bytes, dst.bytes)) (omega (arith, ip_front-length platform n)))

  filled_length :
      (platform : Platform) (n hi lo : ℕ)
      → length (ip_front platform ttl n ++ (hi ∷ lo ∷ ip_back)) ≡ 20
  filled_length platform n hi lo = omega (
    arith,
    ip_front-length platform n,
    length-append (ip_front platform ttl n) (hi ∷ lo ∷ ip_back),
  )

  pub build_ip_header-length :
      (platform : Platform) (n : ℕ) → length (build_ip_header platform conn ttl n) ≡ 20
  build_ip_header-length platform n =
      omega (arith, ap length (build_ip_header-layout platform n), filled_length platform n)
