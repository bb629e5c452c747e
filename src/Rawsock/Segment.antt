-- ===== src/Rawsock/Segment.antt =====
-- The TCP segment that BuildPacket writes behind the IP header.
use gecit_unofficial.Base.{
  ℕ, ◌+◌, ◌≡◌, refl, [], ◌∷◌, ◌++◌, arith, shr, length, set, drop-append, set-append, Bytes, u8,
  u16, put_uint16, put_uint32, ◌<◌, take, drop, length-append, take-append, IsBytes, ap, ◌∙◌,
  drop-add,
}
use gecit_unofficial.Rawsock.Checksum.{checksum}
use gecit_unofficial.Rawsock.Headers.{IsQuad, build_ip_header-length, build_ip_header_verifies}
use gecit_unofficial.Rawsock.Packet.{
  Platform, ConnInfo, build_tcp_header, build_ip_header, pseudo_header, build_packet,
}
use mathlib.Core.List.{append_assoc}
use gecit_unofficial.Rawsock.Verify.{checksum_verifies, PassesCheck}

-- The sixteen bytes in front of the TCP checksum.
abbrev pub tcp_front : ConnInfo → Bytes
tcp_front conn =
    put_uint16 conn.src_port
    ++ (put_uint16 conn.dst_port
        ++ (put_uint32 conn.seq ++ (put_uint32 conn.ack ++ (0x50 ∷ 0x18 ∷ put_uint16 502))))

build_tcp_header-layout :
    (conn : ConnInfo) → build_tcp_header conn ≡ tcp_front conn ++ (0 ∷ 0 ∷ 0 ∷ 0 ∷ [])
unfolding build_tcp_header
build_tcp_header-layout conn = refl

-- The packet around its IP header and its TCP checksum.
module _ (platform : Platform) (conn : ConnInfo) (payload : Bytes) (ttl : ℕ) {a b c d e f g h : ℕ}
    (src : IsQuad conn.src_ip a b c d) (dst : IsQuad conn.dst_ip e f g h) where
  abbrev pub pseudo : Bytes
  pseudo = a ∷ b ∷ c ∷ d ∷ e ∷ f ∷ g ∷ h ∷ 0 ∷ 6 ∷ put_uint16 (u16 (20 + length payload))

  abbrev ip : Bytes
  ip = build_ip_header platform conn ttl (20 + length payload)

  abbrev tcp_checksum : ℕ
  tcp_checksum = checksum (pseudo ++ (tcp_front conn ++ (0 ∷ 0 ∷ 0 ∷ 0 ∷ payload)))

  set_both :
      (hi lo i : ℕ)
      → i ≡ 36
      → set (set (ip ++ (tcp_front conn ++ (0 ∷ 0 ∷ 0 ∷ 0 ∷ payload))) i hi) (i + 1) lo
        ≡ ip ++ (tcp_front conn ++ (hi ∷ lo ∷ 0 ∷ 0 ∷ payload))
  set_both hi lo i at =
      let size = build_ip_header-length conn ttl src dst platform (20 + length payload) in
      let zeros = tcp_front conn ++ (0 ∷ 0 ∷ 0 ∷ 0 ∷ payload) in
      let half = tcp_front conn ++ (hi ∷ 0 ∷ 0 ∷ 0 ∷ payload) in
      rw (set-append ip zeros i 16 hi (omega (arith, size, at)))
        (set-append ip half (i + 1) 17 lo (omega (arith, size, at)))

  pub build_packet-layout :
      build_packet platform conn payload ttl
      ≡ ip ++ (tcp_front conn ++ (u8 (shr tcp_checksum 8) ∷ u8 tcp_checksum ∷ 0 ∷ 0 ∷ payload))
  unfolding build_packet pseudo_header
  build_packet-layout =
      let size = build_ip_header-length conn ttl src dst platform (20 + length payload) in
      rw
        (
          build_tcp_header-layout conn,
          src.form,
          dst.form,
          append_assoc ip (tcp_front conn ++ (0 ∷ 0 ∷ 0 ∷ 0 ∷ [])) payload,
          drop-append ip (tcp_front conn ++ (0 ∷ 0 ∷ 0 ∷ 0 ∷ payload)) (length ip) refl,
        )
        (set_both _ _ _ (omega (arith, size)))

  pub tcp_part_verifies :
      IsBytes payload
      → length payload < 130000
      → PassesCheck (
          pseudo
          ++ (tcp_front conn ++ (u8 (shr tcp_checksum 8) ∷ u8 tcp_checksum ∷ 0 ∷ 0 ∷ payload)))
  tcp_part_verifies h small =
      checksum_verifies (pseudo ++ tcp_front conn) (0 ∷ 0 ∷ payload) refl
        (omega (arith, src.bytes, dst.bytes)) (omega arith, (omega arith, h)) (omega arith)

  -- For a connection between two IPv4 addresses: the packet is 40 bytes longer than its payload,
  -- which stands at its end. The 16-bit words of its IP header sum to a positive multiple of
  -- 65535, as the receiver checks, and so do those of its TCP segment behind the pseudo header,
  -- for a payload of less than 130000 bytes.
  pub build_packet_verifies :
      IsBytes payload
      → length payload < 130000
      → (length (build_packet platform conn payload ttl) ≡ 40 + length payload)
        × (drop 40 (build_packet platform conn payload ttl) ≡ payload)
        × PassesCheck (take 20 (build_packet platform conn payload ttl))
        × PassesCheck (pseudo ++ drop 20 (build_packet platform conn payload ttl))
  build_packet_verifies h small =
      let size = build_ip_header-length conn ttl src dst platform (20 + length payload) in
      let seg = tcp_front conn ++ (u8 (shr tcp_checksum 8) ∷ u8 tcp_checksum ∷ 0 ∷ 0 ∷ payload) in
      rw build_packet-layout (
        omega (arith, size, length-append ip seg),
        drop-add (ip ++ seg) 20 20 ∙ ap (drop 20) (drop-append ip seg 20 (omega (arith, size))),
        rw (take-append ip seg 20 (omega (arith, size)))
            (build_ip_header_verifies conn ttl src dst platform (20 + length payload)),
        rw (drop-append ip seg 20 (omega (arith, size))) (tcp_part_verifies h small),
      )
