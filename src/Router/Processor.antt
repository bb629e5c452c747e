-- ===== src/Router/Processor.antt =====
-- pkg/router/processor.go and FlowKey of packet.go: the decision on one queued packet.
-- The state of the fake package's counter is part of the processor's, since RandomTLSClientHello
-- advances it.
use gecit_unofficial.Base.{
  ℕ, zero, suc, ◌+◌, ◌/◌, ◌%◌, bit_and, Bool, true, false, not, ◌||◌, Option, none, some, List, [],
  ◌∷◌, ◌++◌, ltb, ◌==◌, if◌then◌else◌, Outcome, ok, ◌>>=◌, length, Bytes, Result, returns, fails,
  Text, codes,
}
use gecit_unofficial.Base.Int.{ℤ, pos, negsuc}
use gecit_unofficial.Fake.Hello.{Reads, random_tls_client_hello}
use gecit_unofficial.Router.Flows.{FlowTable, new_flow_table, mark_once}
use gecit_unofficial.Router.Config.{Config, normalized, ConfigError, validate}
use gecit_unofficial.Router.Packet.{
  Decoder, Protocol, protocol_unknown, protocol_tcp, protocol_udp, PacketMeta, PacketError,
  parse_packet, looks_like_tls_client_hello,
}
use gecit_unofficial.Rawsock.Packet.{ConnInfo, to4}

-- time.Minute * 2 in nanoseconds
abbrev pub default_flow_ttl : ℕ
default_flow_ttl = 120000000000

pub data Reason : Type 0 where
  generated_mark parse_failed non_tcp ipv6_not_implemented port_not_targeted : Reason
  no_payload not_client_hello flow_handled not_ipv4_addresses inject_fake : Reason

pub record Action : Type 0 where
  pub inject : Bool
  pub conn : ConnInfo
  pub fake_payload : Bytes
  pub reason : Reason

abbrev pub no_conn : ConnInfo
no_conn = record { src_ip = []; dst_ip = []; src_port = 0; dst_port = 0; seq = 0; ack = 0 }

-- Action{Reason: ...}
abbrev pub declined : Reason → Action
declined r = record { inject = false; conn = no_conn; fake_payload = []; reason = r }

pub record Processor : Type 0 where
  pub cfg : Config
  pub flows : FlowTable
  pub counter : ℕ

-- The packet decoder, and the text of an address that is not IPv4.
pub record Env : Type 0 where
  pub decoder : Decoder
  pub ipv6_text : Bytes → Text

-- int, where the flow table compares it with a length
abbrev pub limit_of : ℤ → ℕ
limit_of (pos n) = n
limit_of (negsuc n) = 0

unfoldable pub new_processor : Config → ℕ → Result ConfigError Processor
new_processor cfg counter = elim (validate (normalized cfg)) [
  | some e ↦ fails e
  | none ↦ returns (record {
    cfg = normalized cfg;
    flows = new_flow_table default_flow_ttl (limit_of (normalized cfg).max_flows);
    counter = counter;
  })
]

unfoldable pub port_allowed : ℕ → List ℕ → Bool
port_allowed port [] = false
port_allowed port (candidate ∷ ports) = (candidate == port) || port_allowed port ports

-- %d; the digits are at most as many as the fuel, since each step divides by ten
unfoldable pub digits : ℕ → ℕ → Text
digits zero n = (48 + n % 10) ∷ []
digits (suc fuel) n =
    let rest = digits fuel (n / 10) in
    if ltb n 10 then (48 + n) ∷ [] else rest ++ (48 + n % 10) ∷ []

abbrev pub decimal : ℕ → Text
decimal n = digits n n

abbrev pub dotted : Bytes → Text
dotted [] = []
dotted (b ∷ []) = decimal b
dotted (b ∷ c ∷ rest) = decimal b ++ 46 ∷ dotted (c ∷ rest)

-- net.IP.String
unfoldable pub ip_text : (Bytes → Text) → Bytes → Text
ip_text ipv6_text ip = elim (to4 ip) [ none ↦ ipv6_text ip | some ip4 ↦ dotted ip4 ]

abbrev pub protocol_text : Protocol → Text
protocol_text protocol_unknown = []
protocol_text protocol_tcp = codes "tcp"
protocol_text protocol_udp = codes "udp"

-- fmt.Sprintf("%d|%s|%s|%s|%d|%d", ...)
unfoldable pub flow_key : (Bytes → Text) → PacketMeta → Text
flow_key ipv6_text m =
    decimal m.ip_version
    ++ 124 ∷ protocol_text m.protocol
    ++ 124 ∷ ip_text ipv6_text m.src_ip
    ++ 124 ∷ ip_text ipv6_text m.dst_ip
    ++ 124 ∷ decimal m.src_port
    ++ 124 ∷ decimal m.dst_port

unfoldable pub packet_to_conn_info : PacketMeta → Option ConnInfo
packet_to_conn_info m = elim (to4 m.src_ip) [
  | none ↦ none
  | some src_ip4 ↦ elim (to4 m.dst_ip) [
    | none ↦ none
    | some dst_ip4 ↦ some (record {
      src_ip = src_ip4;
      dst_ip = dst_ip4;
      src_port = m.src_port;
      dst_port = m.dst_port;
      seq = m.tcp.seq;
      ack = m.tcp.ack;
    })
  ]
]

abbrev pub is_tcp : Protocol → Bool
is_tcp protocol_tcp = true
is_tcp protocol_unknown = false
is_tcp protocol_udp = false

abbrev pub Decision : Type 0
Decision = Outcome ((Action × Option PacketError) × Processor)

-- From the flow gate on.
unfoldable pub inject_new : Env → Processor → PacketMeta → ℕ → Reads → Decision
inject_new env p m now rand =
    let gated = record p { flows = (mark_once p.flows (flow_key env.ipv6_text m) now).0 } in
    if not (mark_once p.flows (flow_key env.ipv6_text m) now).1
    then ok ((declined flow_handled, none), gated)
    else elim (packet_to_conn_info m) [
      | none ↦ ok ((declined not_ipv4_addresses, none), gated)
      | some conn ↦ (do
        (payload, counter) ← random_tls_client_hello p.counter rand
        ok (
          (
            record { inject = true; conn = conn; fake_payload = payload; reason = inject_fake },
            none,
          ),
          record gated { counter = counter },
        ))
    ]

-- The tests on a packet that parsed.
unfoldable pub process_meta : Env → Processor → PacketMeta → ℕ → Reads → Decision
process_meta env p m now rand =
    if not (is_tcp m.protocol)
    then ok ((declined non_tcp, none), p)
    else if not (m.ip_version == 4)
    then ok ((declined ipv6_not_implemented, none), p)
    else if not (port_allowed m.dst_port p.cfg.tcp_ports)
    then ok ((declined port_not_targeted, none), p)
    else if length m.payload == 0
    then ok ((declined no_payload, none), p)
    else (do
      hello ← looks_like_tls_client_hello m.payload
      if hello then inject_new env p m now rand else ok ((declined not_client_hello, none), p))

abbrev pub process_parsed : Env → Processor → ℕ → Reads → Result PacketError PacketMeta → Decision
process_parsed env p now rand (fails e) = ok ((declined parse_failed, some e), p)
process_parsed env p now rand (returns m) = process_meta env p m now rand

unfoldable pub process_packet : Env → Processor → Bytes → ℕ → ℕ → Reads → Decision
process_packet env p packet mark now rand =
    if not (bit_and mark p.cfg.packet_mark == 0)
    then ok ((declined generated_mark, none), p)
    else process_parsed env p now rand (parse_packet env.decoder packet)
