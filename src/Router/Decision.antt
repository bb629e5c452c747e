-- ===== src/Router/Decision.antt =====
-- When ProcessPacket injects, and what it does to the processor.
use gecit_unofficial.Base.{
  ℕ, bit_and, ◌≡◌, refl, true, none, Bytes, returns, Option, some, arith, ok, ◌^◌, ◌<◌, Outcome,
  panic, stuck, is_ok, is_ok→Returns, Result, fails, ◌%◌, ap, ◌∙◌,
}
use gecit_unofficial.Router.Flows.{mark_once}
use gecit_unofficial.Router.HelloCheck.{
  looks_like_tls_client_hello_iff, looks_like_tls_client_hello-Returns,
}
use gecit_unofficial.Router.Processor.{
  Processor, Env, port_allowed, flow_key, packet_to_conn_info, is_tcp, Action, inject_new,
  process_meta, process_packet, process_parsed, inject_fake,
}
use gecit_unofficial.Router.Packet.{
  PacketMeta, parse_packet, PacketError, looks_like_tls_client_hello,
}
use gecit_unofficial.Fake.Hello.{Reads, random_tls_client_hello, ClientHelloProfile}
use gecit_unofficial.Fake.Shipped.{
  Serves, random_tls_client_hello-Serves, name_in_turn, profile_in_turn,
}
use gecit_unofficial.Fake.Sni.{parse_sni}
use gecit_unofficial.Rawsock.Packet.{ConnInfo, to4}
use gecit_unofficial.Router.Once.{mark_once_iff}
use gecit_unofficial.Router.Target.{IsTarget, port_allowed_iff, is_tcp-eq, IsFakeOf}

-- What an injecting answer carries.
abbrev pub Carries : Processor → PacketMeta → Reads → Action → Processor → Type 0
Carries p m rand a p' =
    (packet_to_conn_info m ≡ some a.conn)
    × (random_tls_client_hello p.counter rand ≡ ok (a.fake_payload, p'.counter))

module _ (env : Env) (p : Processor) (now : ℕ) (rand : Reads) where
  pub inject_new-inject :
      (m : PacketMeta) (a : Action) (e : Option PacketError) (p' : Processor)
      → inject_new env p m now rand ≡ ok ((a, e), p')
      → a.inject ≡ true
      → ((mark_once p.flows (flow_key env.ipv6_text m) now).1 ≡ true) × Carries p m rand a p'
  unfolding inject_new
  inject_new-inject m a e p' h inj = ground (arith, h, inj)

  pub process_meta-inject :
      (m : PacketMeta) (a : Action) (e : Option PacketError) (p' : Processor)
      → process_meta env p m now rand ≡ ok ((a, e), p')
      → a.inject ≡ true
      → (is_tcp m.protocol ≡ true)
        × (m.ip_version ≡ 4)
        × (port_allowed m.dst_port p.cfg.tcp_ports ≡ true)
        × (looks_like_tls_client_hello m.payload ≡ ok true)
        × (inject_new env p m now rand ≡ ok ((a, e), p'))
  unfolding process_meta
  process_meta-inject m a e p' h inj = ground (arith, h, inj)

  pub process_packet-inject :
      (packet : Bytes) (mark : ℕ) (a : Action) (e : Option PacketError) (p' : Processor)
      → process_packet env p packet mark now rand ≡ ok ((a, e), p')
      → a.inject ≡ true
      → (bit_and mark p.cfg.packet_mark ≡ 0)
        × ((m : PacketMeta) × (parse_packet env.decoder packet ≡ returns m)
            × (process_meta env p m now rand ≡ ok ((a, e), p')))
  unfolding process_packet
  process_packet-inject packet mark a e p' h inj = ground (arith, h, inj)

endpoints :
    (m : PacketMeta) (c : ConnInfo)
    → packet_to_conn_info m ≡ some c
    → (to4 m.src_ip ≡ some c.src_ip)
      × (to4 m.dst_ip ≡ some c.dst_ip)
      × (c.src_port ≡ m.src_port)
      × (c.dst_port ≡ m.dst_port)
      × (c.seq ≡ m.tcp.seq)
      × (c.ack ≡ m.tcp.ack)
unfolding packet_to_conn_info
endpoints m c h = ground (arith, h)

served :
    (counter : ℕ) (rand : Reads) (payload : Bytes) (counter' : ℕ)
    → counter < 2 ^ 63
    → random_tls_client_hello counter rand ≡ ok (payload, counter')
    → parse_sni payload ≡ ok (name_in_turn (counter % 3))
served counter rand payload counter' h e =
    let (profile, found, serves) = random_tls_client_hello-Serves counter rand h in
    (rw e at serves).0 ∙ ap ok (profile_in_turn (counter % 3) profile (omega arith) found)

hello_returns :
    (counter : ℕ) (rand : Reads)
    → counter < 2 ^ 63
    → (r : Bytes × ℕ) × (random_tls_client_hello counter rand ≡ ok r)
hello_returns counter rand h =
    let (profile, found, serves) = random_tls_client_hello-Serves counter rand h in
    of_serves profile (random_tls_client_hello counter rand) serves
  where
    of_serves :
        (profile : ClientHelloProfile) (o : Outcome (Bytes × ℕ))
        → Serves profile counter o
        → (r : Bytes × ℕ) × (o ≡ ok r)
    of_serves profile (ok r) s = (r, refl)
    of_serves profile panic s = absurd s
    of_serves profile stuck s = absurd s

carried-IsFakeOf :
    (p : Processor) (m : PacketMeta) (rand : Reads) (a : Action) (p' : Processor)
    → p.counter < 2 ^ 63
    → Carries p m rand a p'
    → IsFakeOf p m a
carried-IsFakeOf p m rand a p' below (conn, payload) =
    let (e0, e1, e2, e3, e4, e5) = endpoints m a.conn conn in
    record {
      from = e0;
      to = e1;
      from_port = e2;
      to_port = e3;
      at_seq = e4;
      at_ack = e5;
      names = served p.counter rand a.fake_payload p'.counter below payload;
    }

-- While the counter of hellos is below 2^63: where ProcessPacket answers with an injection, the
-- packet is unmarked and parses to an IPv4 TCP packet to one of the configured ports, between
-- addresses with an IPv4 form, whose payload has the shape of a ClientHello; the flow table has no
-- entry of its flow younger than the TTL, and fewer such entries than its limit; and the fake is
-- from the packet's source to its destination at its sequence and acknowledgment numbers, with a
-- payload from which ParseSNI reads the one of the three names whose turn it is.
pub process_packet_sound :
    (env : Env) (p : Processor) (packet : Bytes) (mark now : ℕ) (rand : Reads)
    → (a : Action) (e : Option PacketError) (p' : Processor) → p.counter < 2 ^ 63
    → process_packet env p packet mark now rand ≡ ok ((a, e), p')
    → a.inject ≡ true
    → (m : PacketMeta) × IsTarget env p packet mark now m × IsFakeOf p m a
process_packet_sound env p packet mark now rand a e p' below h inj =
    let (unmarked, (m, parsed, h1)) =
      process_packet-inject env p now rand packet mark a e p' h inj in
    let (tcp_ok, four, allowed, hello, h2) = process_meta-inject env p now rand m a e p' h1 inj in
    let (fresh, carried) = inject_new-inject env p now rand m a e p' h2 inj in
    let (unseen, room) = (mark_once_iff p.flows (flow_key env.ipv6_text m) now).0 fresh in
    let fake = carried-IsFakeOf p m rand a p' below carried in
    (
      m,
      record {
        unmarked = unmarked;
        parsed = parsed;
        over_tcp = is_tcp-eq m.protocol tcp_ok;
        over_ipv4 = four;
        to_port = (port_allowed_iff m.dst_port p.cfg.tcp_ports).0 allowed;
        client_hello = (looks_like_tls_client_hello_iff m.payload).1.0 hello;
        unseen = unseen;
        room = room;
        from_ipv4 = (a.conn.src_ip, fake.from);
        to_ipv4 = (a.conn.dst_ip, fake.to);
      },
      fake,
    )

conn_info_of :
    (m : PacketMeta) (src dst : Bytes)
    → to4 m.src_ip ≡ some src
    → to4 m.dst_ip ≡ some dst
    → (c : ConnInfo) × (packet_to_conn_info m ≡ some c)
unfolding packet_to_conn_info
conn_info_of m src dst from to = (
  record {
    src_ip = src;
    dst_ip = dst;
    src_port = m.src_port;
    dst_port = m.dst_port;
    seq = m.tcp.seq;
    ack = m.tcp.ack;
  },
  ground (arith, from, to),
)

-- While the counter of hellos is below 2^63: every packet that is unmarked and parses to an IPv4
-- TCP packet to one of the configured ports, between addresses with an IPv4 form, with a payload
-- of the shape of a ClientHello, where the flow table has no entry of its flow younger than the TTL
-- and fewer such entries than its limit, is answered by ProcessPacket with an injection and no
-- error: of a fake from the packet's source to its destination at its sequence and acknowledgment
-- numbers, with a payload from which ParseSNI reads the one of the three names whose turn it is.
pub process_packet_complete :
    (env : Env) (p : Processor) (packet : Bytes) (mark now : ℕ) (rand : Reads) (m : PacketMeta)
    → p.counter < 2 ^ 63
    → IsTarget env p packet mark now m
    → (a : Action) × (p' : Processor) × (process_packet env p packet mark now rand
        ≡ ok ((a, none), p'))
      × (a.inject ≡ true)
      × IsFakeOf p m a
unfolding process_packet process_meta inject_new
process_packet_complete env p packet mark now rand m below t =
    let hello = (looks_like_tls_client_hello_iff m.payload).1.1 t.client_hello in
    let long = t.client_hello.long in
    let allowed = (port_allowed_iff m.dst_port p.cfg.tcp_ports).1 t.to_port in
    let fresh = (mark_once_iff p.flows (flow_key env.ipv6_text m) now).1 (t.unseen, t.room) in
    let ((payload, counter), sent) = hello_returns p.counter rand below in
    let (conn, to_conn) = conn_info_of m t.from_ipv4.0 t.to_ipv4.0 t.from_ipv4.1 t.to_ipv4.1 in
    let a : Action = record {
      inject = true;
      conn = conn;
      fake_payload = payload;
      reason = inject_fake;
    } in
    let p' : Processor = record p {
      flows = (mark_once p.flows (flow_key env.ipv6_text m) now).0;
      counter = counter;
    } in
    (
      a,
      p',
      ground (
        arith, hello, long, sent, t.unmarked, t.parsed, t.over_tcp, t.over_ipv4, allowed, fresh,
        to_conn,
      ),
      refl,
      carried-IsFakeOf p m rand a p' below (to_conn, sent),
    )

process_meta-ok :
    (env : Env) (p : Processor) (m : PacketMeta) (now : ℕ) (rand : Reads)
    → p.counter < 2 ^ 63
    → is_ok (process_meta env p m now rand) ≡ true
unfolding process_meta inject_new
process_meta-ok env p m now rand below =
    let (hello, looks) = looks_like_tls_client_hello-Returns m.payload in
    let (sent, e) = hello_returns p.counter rand below in ground (arith, looks, e)

process_parsed-ok :
    (env : Env) (p : Processor) (r : Result PacketError PacketMeta) (now : ℕ) (rand : Reads)
    → p.counter < 2 ^ 63
    → is_ok (process_parsed env p now rand r) ≡ true
process_parsed-ok env p (fails e) now rand below = refl
process_parsed-ok env p (returns m) now rand below = process_meta-ok env p m now rand below

-- While the counter of hellos is below 2^63, ProcessPacket returns on every packet, whatever its
-- bytes.
pub process_packet-Returns :
    (env : Env) (p : Processor) (packet : Bytes) (mark now : ℕ) (rand : Reads)
    → p.counter < 2 ^ 63
    → (r : (Action × Option PacketError) × Processor) × (process_packet env p packet mark now rand
        ≡ ok r)
unfolding process_packet
process_packet-Returns env p packet mark now rand below =
    is_ok→Returns (process_packet env p packet mark now rand)
      (ground (arith, process_parsed-ok env p (parse_packet env.decoder packet) now rand below))
