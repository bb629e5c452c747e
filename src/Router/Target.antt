-- ===== src/Router/Target.antt =====
-- The packets that ProcessPacket answers with a fake, and the fakes.
use gecit_unofficial.Base.{
  ℕ, bit_and, ◌≡◌, refl, true, Bytes, returns, some, arith, ok, ◌<◌, ◌%◌, ◌↔◌, inl, inr, List, [],
  ◌∷◌, ◌==◌, Bool-cases, Any,
}
use gecit_unofficial.Router.HelloCheck.{HasHelloShape}
use gecit_unofficial.Router.Processor.{Processor, Env, port_allowed, flow_key, is_tcp, Action}
use gecit_unofficial.Router.Packet.{
  Protocol, protocol_unknown, protocol_tcp, protocol_udp, PacketMeta, parse_packet,
}
use gecit_unofficial.Fake.Sni.{parse_sni}
use gecit_unofficial.Rawsock.Packet.{to4}
use gecit_unofficial.Router.Once.{IsUnseen, young}
use gecit_unofficial.Fake.Shipped.{name_in_turn}

-- What ProcessPacket asks of a packet that it answers with a fake.
pub record IsTarget (env : Env) (p : Processor) (packet : Bytes) (mark now : ℕ) (m : PacketMeta)
    : Type 0 where
  pub unmarked : bit_and mark p.cfg.packet_mark ≡ 0
  pub parsed : parse_packet env.decoder packet ≡ returns m
  pub over_tcp : m.protocol ≡ protocol_tcp
  pub over_ipv4 : m.ip_version ≡ 4
  pub to_port : Any (λ port. port ≡ m.dst_port) p.cfg.tcp_ports
  pub client_hello : HasHelloShape m.payload
  pub unseen : IsUnseen p.flows (flow_key env.ipv6_text m) now
  pub room : young p.flows.ttl now p.flows.entries < p.flows.limit
  pub from_ipv4 : (ip : Bytes) × (to4 m.src_ip ≡ some ip)
  pub to_ipv4 : (ip : Bytes) × (to4 m.dst_ip ≡ some ip)

pub port_allowed_iff :
    (port : ℕ) (ports : List ℕ)
    → (port_allowed port ports ≡ true) ↔ Any (λ candidate. candidate ≡ port) ports
unfolding port_allowed
port_allowed_iff port [] = ((λ h. absurd (ground (arith, h))), (λ o. absurd o))
port_allowed_iff port (candidate ∷ ports) =
    let rest = port_allowed_iff port ports in
    (
      λ h. elim (Bool-cases (candidate == port)) [
        | inl same ↦ inl (ground (arith, same))
        | inr other ↦ inr (rest.0 (ground (arith, h, other)))
      ],
      λ o. elim o [ inl same ↦ ground (arith, same) | inr later ↦ ground (arith, rest.1 later) ],
    )

pub is_tcp-eq : (t : Protocol) → is_tcp t ≡ true → t ≡ protocol_tcp
is_tcp-eq protocol_tcp h = refl
is_tcp-eq protocol_unknown h = cc
is_tcp-eq protocol_udp h = cc

-- The endpoints, the sequence and the acknowledgment number of the packet, and a hello with the
-- name whose turn it is.
pub record IsFakeOf (p : Processor) (m : PacketMeta) (a : Action) : Type 0 where
  pub from : to4 m.src_ip ≡ some a.conn.src_ip
  pub to : to4 m.dst_ip ≡ some a.conn.dst_ip
  pub from_port : a.conn.src_port ≡ m.src_port
  pub to_port : a.conn.dst_port ≡ m.dst_port
  pub at_seq : a.conn.seq ≡ m.tcp.seq
  pub at_ack : a.conn.ack ≡ m.tcp.ack
  pub names : parse_sni a.fake_payload ≡ ok (name_in_turn (p.counter % 3))
