-- ===== src/Capture/Packet.antt =====
-- pkg/capture/capture_darwin.go and capture_windows_pcap.go: the filter and processPacket, which
-- are the same in both. The decoder of gopacket is not part of the program: a captured packet is
-- what its layers say. The filter's text is run by the kernel; here is what the text means.
use gecit_unofficial.Base.{
  ℕ, ◌+◌, ◌≡◌, refl, ◌≢◌, Bool, true, false, not, ◌&&◌, ◌||◌, Option, none, some, List, [], ◌∷◌,
  arith, ◌==◌, if◌then◌else◌, Bytes, u32, ◌++◌,
}
use gecit_unofficial.Router.Packet.{TcpLayer}
use gecit_unofficial.Rawsock.Packet.{ConnInfo, to4, or_nil}

pub record Ipv4Layer : Type 0 where
  pub src_ip : Bytes
  pub dst_ip : Bytes

pub record Captured : Type 0 where
  pub tcp_part : Option TcpLayer
  pub ipv4_part : Option Ipv4Layer

-- A set of ports, as the map from a port to true
unfoldable pub has_port : ℕ → List ℕ → Bool
has_port port [] = false
has_port port (p ∷ ps) = (p == port) || has_port port ps

-- tcp src port 443 and tcp[tcpflags] & (tcp-syn|tcp-ack) = (tcp-syn|tcp-ack)
unfoldable pub passes_filter : Captured → Bool
passes_filter packet = elim packet.tcp_part [
  | none ↦ false
  | some tcp ↦ tcp.src_port == 443 && (tcp.syn && tcp.ack_flag)
]

-- The event of a SYN-ACK; the addresses and ports change sides.
unfoldable pub event_of_packet : TcpLayer → Ipv4Layer → ConnInfo
event_of_packet tcp ip = record {
  src_ip = or_nil (to4 ip.dst_ip);
  dst_ip = or_nil (to4 ip.src_ip);
  src_port = tcp.dst_port;
  dst_port = tcp.src_port;
  seq = tcp.ack;
  ack = u32 (tcp.seq + 1);
}

-- The event that cb is called with, if it is
unfoldable pub process_captured : List ℕ → Captured → Option ConnInfo
process_captured ports packet = elim packet.tcp_part [
  | none ↦ none
  | some tcp ↦
      if not tcp.syn || not tcp.ack_flag
      then none
      else if not (has_port tcp.src_port ports)
      then none
      else elim packet.ipv4_part [ none ↦ none | some ip ↦ some (event_of_packet tcp ip) ]
]

-- A packet on the wire: the loop of Start sees what the filter lets through.
unfoldable pub capture_packet : List ℕ → Captured → Option ConnInfo
capture_packet ports packet = if passes_filter packet then process_captured ports packet else none

-- A connection of whatever port other than 443 gives no event, although its port is configured.
pub capture_packet-none :
    (ports : List ℕ) (tcp : TcpLayer) (ip : Option Ipv4Layer)
    → tcp.src_port ≢ 443
    → capture_packet ports (record { tcp_part = some tcp; ipv4_part = ip }) ≡ none
unfolding capture_packet passes_filter
capture_packet-none ports tcp ip h = ground (arith, h)

-- The two ends of a handshake: the numbers that each side begins with.
pub record Handshake : Type 0 where
  pub client_ip : Bytes
  pub server_ip : Bytes
  pub client_port : ℕ
  pub server_port : ℕ
  pub client_isn : ℕ
  pub server_isn : ℕ

-- The server's SYN-ACK
abbrev pub syn_ack : Handshake → Captured
syn_ack h = record {
  tcp_part = some (record {
    src_port = h.server_port;
    dst_port = h.client_port;
    seq = h.server_isn;
    ack = u32 (h.client_isn + 1);
    syn = true;
    ack_flag = true;
    psh = false;
    rst = false;
    fin = false;
    payload = [];
  });
  ipv4_part = some (record { src_ip = h.server_ip; dst_ip = h.client_ip });
}

-- Where the client's first segment with data stands
abbrev pub first_segment : Handshake → ConnInfo
first_segment h = record {
  src_ip = or_nil (to4 h.client_ip);
  dst_ip = or_nil (to4 h.server_ip);
  src_port = h.client_port;
  dst_port = h.server_port;
  seq = u32 (h.client_isn + 1);
  ack = u32 (h.server_isn + 1);
}

-- The SYN-ACK of a connection to a configured port 443 gives the event of the client's first data
-- segment: from client to server, at the client's next and the server's next sequence number,
-- modulo 2^32.
pub capture_packet-syn_ack :
    (ports : List ℕ) (h : Handshake)
    → h.server_port ≡ 443
    → has_port 443 ports ≡ true
    → capture_packet ports (syn_ack h) ≡ some (first_segment h)
unfolding capture_packet passes_filter process_captured event_of_packet
capture_packet-syn_ack ports h to_443 on = rw to_443 (rw on refl)

-- The loop of Start over packets that are read: what it hands to cb, packet after packet.
unfoldable pub captured : List ℕ → List Captured → List ConnInfo
captured ports [] = []
captured ports (packet ∷ packets) = elim (capture_packet ports packet) [
  | none ↦ captured ports packets
  | some evt ↦ evt ∷ captured ports packets
]

pub captured-append :
    (ports : List ℕ) (xs ys : List Captured)
    → captured ports (xs ++ ys) ≡ captured ports xs ++ captured ports ys
unfolding captured
captured-append ports [] ys = refl
captured-append ports (x ∷ xs) ys = ground (arith, captured-append ports xs ys)

pub captured-some :
    (ports : List ℕ) (packet : Captured) (packets : List Captured) (evt : ConnInfo)
    → capture_packet ports packet ≡ some evt
    → captured ports (packet ∷ packets) ≡ evt ∷ captured ports packets
unfolding captured
captured-some ports packet packets evt h = ground (arith, h)

pub captured-none :
    (ports : List ℕ) (packet : Captured) (packets : List Captured)
    → capture_packet ports packet ≡ none
    → captured ports (packet ∷ packets) ≡ captured ports packets
unfolding captured
captured-none ports packet packets h = ground (arith, h)

pub captured_nil : (ports : List ℕ) → captured ports [] ≡ []
unfolding captured
captured_nil ports = refl
