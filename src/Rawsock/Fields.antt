-- ===== src/Rawsock/Fields.antt =====
-- What a receiver reads out of the packet that BuildPacket makes.
use mathlib.Core.Path.{ap₂}
use gecit_unofficial.Base.{
  ℕ, zero, suc, ◌+◌, ◌*◌, ◌<◌, ◌≡◌, ap, [], ◌∷◌, ◌++◌, arith, shr, length, get_or, Bytes, u8, be16,
  be16_lem, refl, ◌∙◌, take, drop, be16-put, u16,
}
use gecit_unofficial.Rawsock.Segment.{tcp_front, build_packet-layout, pseudo}
use gecit_unofficial.Rawsock.Headers.{IsQuad, build_ip_header-length, build_ip_header-layout}
use gecit_unofficial.Rawsock.Packet.{
  Platform, linux, darwin, windows, ConnInfo, build_ip_header, build_packet, ip_header_put_uint16,
}
use gecit_unofficial.Rawsock.Checksum.{checksum}

-- The big-endian words at an offset, and the little-endian one that macOS wants.
abbrev pub word16 : Bytes → ℕ → ℕ
word16 pkt i = be16 (get_or pkt i 0) (get_or pkt (i + 1) 0)

abbrev pub word32 : Bytes → ℕ → ℕ
word32 pkt i = word16 pkt i * 65536 + word16 pkt (i + 2)

-- The total length as the platform's kernel reads it.
unfoldable pub total_length : Platform → Bytes → ℕ
total_length linux pkt = word16 pkt 2
total_length darwin pkt = be16 (get_or pkt 3 0) (get_or pkt 2 0)
total_length windows pkt = word16 pkt 2

get_or-append :
    (xs ys : Bytes) (i j d : ℕ) → i ≡ length xs + j → get_or (xs ++ ys) i d ≡ get_or ys j d
get_or-append [] ys i j d e = ap (λ k. get_or ys k d) (omega arith)
get_or-append (x ∷ xs) ys zero j d e = absurd (omega arith)
get_or-append (x ∷ xs) ys (suc i) j d e = get_or-append xs ys i j d (omega arith)

put_uint32-words :
    (v : ℕ)
    → v < 4294967296
    → be16 (u8 (shr v 24)) (u8 (shr v 16)) * 65536 + be16 (u8 (shr v 8)) (u8 v) ≡ v
put_uint32-words v h = omega (
  arith,
  be16_lem (u8 (shr v 24)) (u8 (shr v 16)) (omega arith),
  be16_lem (u8 (shr v 8)) (u8 v) (omega arith),
)

module _ (conn : ConnInfo) (ttl : ℕ) {a b c d e f g h : ℕ} (src : IsQuad conn.src_ip a b c d)
    (dst : IsQuad conn.dst_ip e f g h) where
  -- What the IP header of a packet with `n` bytes behind it says.
  abbrev pub IpFields : Platform → ℕ → Bytes → Type 0
  IpFields platform n pkt =
      (total_length platform pkt ≡ 20 + n)
      × (get_or pkt 8 0 ≡ u8 ttl)
      × (get_or pkt 9 0 ≡ 6)
      × (take 4 (drop 12 pkt) ≡ a ∷ b ∷ c ∷ d ∷ [])
      × (take 4 (drop 16 pkt) ≡ e ∷ f ∷ g ∷ h ∷ [])

  ip_fields :
      (platform : Platform) (n : ℕ) (rest : Bytes)
      → n < 65516
      → IpFields platform n (build_ip_header platform conn ttl n ++ rest)
  unfolding ip_header_put_uint16 total_length
  ip_fields linux n rest k =
      rw (build_ip_header-layout conn ttl src dst linux n)
        (be16-put (u16 (20 + n)) (omega arith) ∙ omega arith, refl, refl, refl, refl)
  ip_fields darwin n rest k =
      rw (build_ip_header-layout conn ttl src dst darwin n)
        (be16-put (u16 (20 + n)) (omega arith) ∙ omega arith, refl, refl, refl, refl)
  ip_fields windows n rest k =
      rw (build_ip_header-layout conn ttl src dst windows n)
        (be16-put (u16 (20 + n)) (omega arith) ∙ omega arith, refl, refl, refl, refl)

  module _ (platform : Platform) (payload : Bytes) where
    abbrev pkt : Bytes
    pkt = build_packet platform conn payload ttl

    -- For a connection between two IPv4 addresses and a payload of less than 65496 bytes: the IP
    -- header says how long the packet is, in the byte order of the platform, and holds the low byte
    -- of the TTL, the protocol TCP and the two addresses.
    pub build_packet-IpFields : length payload < 65496 → IpFields platform (20 + length payload) pkt
    build_packet-IpFields small =
        rw (build_packet-layout platform conn payload ttl src dst)
          (ip_fields platform (20 + length payload) _ (omega arith))

    abbrev seg : Bytes
    seg =
        let cs = checksum (
          pseudo platform conn payload ttl src dst
          ++ (tcp_front conn ++ (0 ∷ 0 ∷ 0 ∷ 0 ∷ payload))) in
        tcp_front conn ++ (u8 (shr cs 8) ∷ u8 cs ∷ 0 ∷ 0 ∷ payload)

    tcp_byte : (i j : ℕ) → i ≡ 20 + j → get_or pkt i 0 ≡ get_or seg j 0
    tcp_byte i j e =
        let size = build_ip_header-length conn ttl src dst platform (20 + length payload) in
        rw (build_packet-layout platform conn payload ttl src dst) (
          get_or-append (build_ip_header platform conn ttl (20 + length payload)) seg i j 0
            (omega (arith, size)))

    -- For a connection between two IPv4 addresses, with 16-bit ports and 32-bit numbers: the TCP
    -- header holds the connection's ports and numbers, with PSH and ACK set.
    pub build_packet_tcp_fields :
        conn.src_port < 65536
        → conn.dst_port < 65536
        → conn.seq < 4294967296
        → conn.ack < 4294967296
        → (word16 pkt 20 ≡ conn.src_port)
          × (word16 pkt 22 ≡ conn.dst_port)
          × (word32 pkt 24 ≡ conn.seq)
          × (word32 pkt 28 ≡ conn.ack)
          × (get_or pkt 33 0 ≡ 0x18)
    build_packet_tcp_fields hs hd hq ha = (
      ap₂ be16 (tcp_byte 20 0 refl) (tcp_byte 21 1 refl) ∙ be16-put conn.src_port hs,
      ap₂ be16 (tcp_byte 22 2 refl) (tcp_byte 23 3 refl) ∙ be16-put conn.dst_port hd,
      ap₂ (λ x y. x * 65536 + y) (ap₂ be16 (tcp_byte 24 4 refl) (tcp_byte 25 5 refl))
            (ap₂ be16 (tcp_byte 26 6 refl) (tcp_byte 27 7 refl))
          ∙ put_uint32-words conn.seq hq,
      ap₂ (λ x y. x * 65536 + y) (ap₂ be16 (tcp_byte 28 8 refl) (tcp_byte 29 9 refl))
            (ap₂ be16 (tcp_byte 30 10 refl) (tcp_byte 31 11 refl))
          ∙ put_uint32-words conn.ack ha,
      tcp_byte 33 13 refl,
    )
