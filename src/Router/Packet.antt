-- ===== src/Router/Packet.antt =====
-- pkg/router/packet.go. The gopacket decoder is not part of the program: it is a parameter, which
-- says of a packet what its network layer and its transport layer hold.
use gecit_unofficial.Base.{
  ℕ, ◌+◌, Bool, false, not, Option, none, some, [], ◌∷◌, ltb, ◌==◌, if◌then◌else◌, shr, Outcome, ok,
  ◌>>=◌, index, slice, Bytes, be16, be24, Result, returns, fails, length,
}

pub record TcpLayer : Type 0 where
  pub src_port : ℕ
  pub dst_port : ℕ
  pub seq : ℕ
  pub ack : ℕ
  pub syn : Bool
  pub ack_flag : Bool
  pub psh : Bool
  pub rst : Bool
  pub fin : Bool
  pub payload : Bytes

pub record UdpLayer : Type 0 where
  pub src_port : ℕ
  pub dst_port : ℕ
  pub datagram_len : ℕ
  pub payload : Bytes

-- pkt.Layer(LayerTypeTCP) or else pkt.Layer(LayerTypeUDP)
pub data Transport : Type 0 where
  tcp_layer : TcpLayer → Transport
  udp_layer : UdpLayer → Transport
  no_transport : Transport

pub record IpLayers : Type 0 where
  pub src_ip : Bytes
  pub dst_ip : Bytes
  pub transport : Transport

-- gopacket on raw bytes; `none` where the packet has no such network layer.
pub record Decoder : Type 0 where
  pub ipv4 : Bytes → Option IpLayers
  pub ipv6 : Bytes → Option IpLayers

pub data Protocol : Type 0 where
  protocol_unknown protocol_tcp protocol_udp : Protocol

pub record TcpMeta : Type 0 where
  pub seq : ℕ
  pub ack : ℕ
  pub syn : Bool
  pub ack_flag : Bool
  pub psh : Bool
  pub rst : Bool
  pub fin : Bool

abbrev pub no_tcp_meta : TcpMeta
no_tcp_meta = record {
  seq = 0;
  ack = 0;
  syn = false;
  ack_flag = false;
  psh = false;
  rst = false;
  fin = false;
}

pub record PacketMeta : Type 0 where
  pub ip_version : ℕ
  pub protocol : Protocol
  pub src_ip : Bytes
  pub dst_ip : Bytes
  pub src_port : ℕ
  pub dst_port : ℕ
  pub tcp : TcpMeta
  pub udp_length : ℕ
  pub payload : Bytes

pub data PacketError : Type 0 where
  empty_packet missing_ipv4 missing_ipv6 : PacketError
  unsupported_version : ℕ → PacketError

-- A protocol left at the zero value prints as the empty string: `protocol_unknown` stands for it,
-- which is what a packet with another transport has.
unfoldable pub fill_transport_meta : PacketMeta → Transport → PacketMeta
fill_transport_meta m (tcp_layer t) = record m {
  protocol = protocol_tcp;
  src_port = t.src_port;
  dst_port = t.dst_port;
  payload = t.payload;
  tcp = record {
    seq = t.seq;
    ack = t.ack;
    syn = t.syn;
    ack_flag = t.ack_flag;
    psh = t.psh;
    rst = t.rst;
    fin = t.fin;
  };
}
fill_transport_meta m (udp_layer u) = record m {
  protocol = protocol_udp;
  src_port = u.src_port;
  dst_port = u.dst_port;
  payload = u.payload;
  udp_length = u.datagram_len;
}
fill_transport_meta m no_transport = m

unfoldable pub meta_of : ℕ → IpLayers → PacketMeta
meta_of version ip =
    fill_transport_meta
      (record {
        ip_version = version;
        protocol = protocol_unknown;
        src_ip = ip.src_ip;
        dst_ip = ip.dst_ip;
        src_port = 0;
        dst_port = 0;
        tcp = no_tcp_meta;
        udp_length = 0;
        payload = [];
      })
      ip.transport

unfoldable pub parse_ipv4 : Decoder → Bytes → Result PacketError PacketMeta
parse_ipv4 d packet = elim (d.ipv4 packet) [
  | none ↦ fails missing_ipv4
  | some ip ↦ returns (meta_of 4 ip)
]

unfoldable pub parse_ipv6 : Decoder → Bytes → Result PacketError PacketMeta
parse_ipv6 d packet = elim (d.ipv6 packet) [
  | none ↦ fails missing_ipv6
  | some ip ↦ returns (meta_of 6 ip)
]

unfoldable pub parse_packet : Decoder → Bytes → Result PacketError PacketMeta
parse_packet d [] = fails empty_packet
parse_packet d (b ∷ rest) =
    if shr b 4 == 4
    then parse_ipv4 d (b ∷ rest)
    else if shr b 4 == 6
    then parse_ipv6 d (b ∷ rest)
    else fails (unsupported_version (shr b 4))

-- The two lengths that the record and the handshake declare.
unfoldable pub check_lengths : Bytes → Outcome Bool
check_lengths payload = do
  bytes ← slice payload 3 5
  r0 ← index bytes 0
  r1 ← index bytes 1
  let record_len = be16 r0 r1
  let handshake = (do
    a ← index payload 6
    b ← index payload 7
    c ← index payload 8
    ok (ltb 0 (be24 a b c)))
  if ltb record_len 4
      then ok false
      else if ltb (length payload) (5 + record_len)
      then ok false
      else handshake

unfoldable pub looks_like_tls_client_hello : Bytes → Outcome Bool
looks_like_tls_client_hello payload = if ltb (length payload) 9 then ok false else do
  content_type ← index payload 0
  let after_version = (do
    handshake_type ← index payload 5
    if not (handshake_type == 0x01) then ok false else check_lengths payload)
  let after_type = (do
    major ← index payload 1
    if not (major == 0x03) then ok false else after_version)
  if not (content_type == 0x16) then ok false else after_type
