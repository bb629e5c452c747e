-- ===== src/Rawsock/Packet.antt =====
-- pkg/rawsock/rawsock.go and ipheader_*.go: BuildPacket and its two headers. A header is a list of
-- 20 bytes that is written to at fixed places.
use gecit_unofficial.Base.{
  ℕ, zero, suc, ◌+◌, ◌&&◌, Option, none, some, [], ◌∷◌, ◌++◌, ◌==◌, if◌then◌else◌, shr, length, set,
  take, drop, replicate, Bytes, u8, u16, put_uint16, put_uint32,
}
use gecit_unofficial.Rawsock.Checksum.{checksum}

-- The three builds of ipHeaderPutUint16.
pub data Platform : Type 0 where
  linux darwin windows : Platform

pub record ConnInfo : Type 0 where
  pub src_ip : Bytes
  pub dst_ip : Bytes
  pub src_port : ℕ
  pub dst_port : ℕ
  pub seq : ℕ
  pub ack : ℕ

-- net.IP.To4: four bytes as they are, or the tail of an IPv4-mapped address; `none` is nil.
unfoldable pub to4 : Bytes → Option Bytes
to4 (a ∷ b ∷ c ∷ d ∷ []) = some (a ∷ b ∷ c ∷ d ∷ [])
to4 (z0 ∷ z1 ∷ z2 ∷ z3 ∷ z4 ∷ z5 ∷ z6 ∷ z7 ∷ z8 ∷ z9 ∷ x ∷ y ∷ a ∷ b ∷ c ∷ d ∷ []) =
    if (((z0 == 0 && z1 == 0) && (z2 == 0 && z3 == 0))
        && ((z4 == 0 && z5 == 0) && (z6 == 0 && z7 == 0)))
      && ((z8 == 0 && z9 == 0) && (x == 0xff && y == 0xff))
    then some (a ∷ b ∷ c ∷ d ∷ [])
    else none
to4 _ = none

-- A nil slice is empty.
abbrev pub or_nil : Option Bytes → Bytes
or_nil none = []
or_nil (some b) = b

-- copy(dst, src)
abbrev pub overwrite : Bytes → Bytes → Bytes
overwrite [] dst = dst
overwrite (s ∷ src) [] = []
overwrite (s ∷ src) (d ∷ dst) = s ∷ overwrite src dst

-- copy(dst[off:], src), and PutUint16(dst[off:off+2], v) with the bytes of `v`
abbrev pub copy_at : ℕ → Bytes → Bytes → Bytes
copy_at zero src dst = overwrite src dst
copy_at (suc n) src [] = []
copy_at (suc n) src (d ∷ dst) = d ∷ copy_at n src dst

-- binary.LittleEndian.PutUint16 on macOS, BigEndian elsewhere
unfoldable pub ip_header_put_uint16 : Platform → ℕ → Bytes
ip_header_put_uint16 linux v = put_uint16 v
ip_header_put_uint16 darwin v = u8 v ∷ u8 (shr v 8) ∷ []
ip_header_put_uint16 windows v = put_uint16 v

unfoldable pub build_tcp_header : ConnInfo → Bytes
build_tcp_header conn =
    let hdr0 = replicate 20 0 in
    let hdr1 = copy_at 0 (put_uint16 conn.src_port) hdr0 in
    let hdr2 = copy_at 2 (put_uint16 conn.dst_port) hdr1 in
    let hdr3 = copy_at 4 (put_uint32 conn.seq) hdr2 in
    let hdr4 = copy_at 8 (put_uint32 conn.ack) hdr3 in
    let hdr5 = set hdr4 12 0x50 in let hdr6 = set hdr5 13 0x18 in copy_at 14 (put_uint16 502) hdr6

-- The IP header before its checksum is filled in.
unfoldable pub ip_header_fields : Platform → ConnInfo → ℕ → ℕ → Bytes
ip_header_fields platform conn ttl payload_len =
    let total_len = 20 + payload_len in
    let hdr0 = set (replicate 20 0) 0 0x45 in
    let hdr1 = copy_at 2 (ip_header_put_uint16 platform (u16 total_len)) hdr0 in
    let hdr2 = copy_at 4 (ip_header_put_uint16 platform 0x1234) hdr1 in
    let hdr3 = set hdr2 8 (u8 ttl) in
    let hdr4 = set hdr3 9 6 in
    let hdr5 = copy_at 12 (take 4 (or_nil (to4 conn.src_ip))) hdr4 in
    copy_at 16 (take 4 (or_nil (to4 conn.dst_ip))) hdr5

unfoldable pub build_ip_header : Platform → ConnInfo → ℕ → ℕ → Bytes
build_ip_header platform conn ttl payload_len =
    let hdr = ip_header_fields platform conn ttl payload_len in
    let cs = checksum hdr in set (set hdr 10 (u8 (shr cs 8))) 11 (u8 cs)

-- What the TCP checksum covers in front of the segment.
unfoldable pub pseudo_header : ConnInfo → ℕ → Bytes
pseudo_header conn tcp_len =
    ((or_nil (to4 conn.src_ip) ++ or_nil (to4 conn.dst_ip)) ++ 0 ∷ 6 ∷ [])
    ++ put_uint16 (u16 tcp_len)

unfoldable pub build_packet : Platform → ConnInfo → Bytes → ℕ → Bytes
build_packet platform conn payload ttl =
    let tcp_hdr = build_tcp_header conn in
    let ip_hdr = build_ip_header platform conn ttl (length tcp_hdr + length payload) in
    let pkt = (ip_hdr ++ tcp_hdr) ++ payload in
    let tcp_checksum_offset = length ip_hdr + 16 in
    let checksum_data =
      pseudo_header conn (length tcp_hdr + length payload) ++ drop (length ip_hdr) pkt in
    let cs = checksum checksum_data in
    set (set pkt tcp_checksum_offset (u8 (shr cs 8))) (tcp_checksum_offset + 1) (u8 cs)
