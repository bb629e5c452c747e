-- ===== src/Router/Tests.antt =====
-- The theorems at concrete configurations, packets and engines.
use gecit_unofficial.Base.{
  ◌≡◌, refl, ◌↔◌, Bool, true, false, Option, none, some, List, [], ◌∷◌, arith, ok, index, slice,
  Bytes, be16, be24, returns, Text, text_eq, inl,
}
use gecit_unofficial.Fake.Hello.{Reads, build_client_hello, google, random_tls_client_hello}
use gecit_unofficial.Router.Flows.{purge, exists_key, mark_once}
use gecit_unofficial.Router.Decision.{
  process_packet_sound, process_packet_complete, process_packet-Returns,
}
use gecit_unofficial.Router.Config.{default_config}
use gecit_unofficial.Router.Gate.{no_packets, process_packet_once}
use gecit_unofficial.Router.HelloCheck.{HasHelloShape, looks_like_tls_client_hello_iff}
use gecit_unofficial.Router.Processor.{
  default_flow_ttl, flow_handled, inject_fake, Action, declined, Processor, Env, port_allowed,
  digits, ip_text, flow_key, packet_to_conn_info, inject_new, process_meta, process_packet,
}
use gecit_unofficial.Router.Runner.{
  Attribute, RunnerCall, handle_packet, EndsAccepting, handle_packet-EndsAccepting,
}
use gecit_unofficial.Router.Packet.{
  TcpLayer, tcp_layer, IpLayers, protocol_tcp, PacketMeta, PacketError, fill_transport_meta,
  meta_of, parse_ipv4, parse_packet, check_lengths, looks_like_tls_client_hello,
}
use gecit_unofficial.Rawsock.Packet.{ConnInfo, to4}
use gecit_unofficial.Router.Once.{young}
use gecit_unofficial.Router.Target.{IsTarget, IsFakeOf}

abbrev hello_payload : Bytes
hello_payload = 0x16 ∷ 3 ∷ 1 ∷ 0 ∷ 5 ∷ 1 ∷ 0 ∷ 0 ∷ 1 ∷ 3 ∷ []

abbrev segment : TcpLayer
segment = record {
  src_port = 50000;
  dst_port = 443;
  seq = 1000;
  ack = 2000;
  syn = false;
  ack_flag = true;
  psh = true;
  rst = false;
  fin = false;
  payload = hello_payload;
}

abbrev layers : IpLayers
layers = record {
  src_ip = 192 ∷ 168 ∷ 1 ∷ 2 ∷ [];
  dst_ip = 1 ∷ 1 ∷ 1 ∷ 1 ∷ [];
  transport = tcp_layer segment;
}

abbrev env : Env
env = record { decoder = record { ipv4 = λ b. some layers; ipv6 = λ b. none }; ipv6_text = λ b. [] }

abbrev queued : Bytes
queued = 0x45 ∷ []

abbrev processor : Processor
processor = record {
  cfg = default_config;
  flows = record { ttl = default_flow_ttl; limit = 4096; entries = [] };
  counter = 0;
}

abbrev no_entropy : Reads
no_entropy k = none

abbrev the_meta : PacketMeta
the_meta = record {
  ip_version = 4;
  protocol = protocol_tcp;
  src_ip = 192 ∷ 168 ∷ 1 ∷ 2 ∷ [];
  dst_ip = 1 ∷ 1 ∷ 1 ∷ 1 ∷ [];
  src_port = 50000;
  dst_port = 443;
  tcp = record {
    seq = 1000;
    ack = 2000;
    syn = false;
    ack_flag = true;
    psh = true;
    rst = false;
    fin = false;
  };
  udp_length = 0;
  payload = hello_payload;
}

abbrev the_key : Text
the_key = flow_key env.ipv6_text the_meta

abbrev the_conn : ConnInfo
the_conn = record {
  src_ip = 192 ∷ 168 ∷ 1 ∷ 2 ∷ [];
  dst_ip = 1 ∷ 1 ∷ 1 ∷ 1 ∷ [];
  src_port = 50000;
  dst_port = 443;
  seq = 1000;
  ack = 2000;
}

abbrev answer : Action
answer = record {
  inject = true;
  conn = the_conn;
  fake_payload = build_client_hello google true 1 no_entropy;
  reason = inject_fake;
}

abbrev after : Processor
after = record processor {
  flows = record { ttl = default_flow_ttl; limit = 4096; entries = (the_key, 10) ∷ [] };
  counter = 1;
}

parses : parse_packet env.decoder queued ≡ returns the_meta
unfolding parse_packet parse_ipv4 meta_of fill_transport_meta
parses = refl

has_hello_shape : HasHelloShape hello_payload
unfolding be16 be24
has_hello_shape = record {
  long = omega arith;
  content_type = refl;
  major = refl;
  handshake_type = refl;
  record_long = omega arith;
  record_whole = omega arith;
  handshake_long = omega arith;
}

is_target : IsTarget env processor queued 0 10 the_meta
unfolding young to4
is_target = record {
  unmarked = refl;
  parsed = parses;
  over_tcp = refl;
  over_ipv4 = refl;
  to_port = inl refl;
  client_hello = has_hello_shape;
  unseen = tt;
  room = omega arith;
  from_ipv4 = (the_conn.src_ip, refl);
  to_ipv4 = (the_conn.dst_ip, refl);
}

injects : process_packet env processor queued 0 10 no_entropy ≡ ok ((answer, none), after)
unfolding process_packet process_meta inject_new parse_packet parse_ipv4 meta_of fill_transport_meta
    port_allowed looks_like_tls_client_hello check_lengths index slice be16 be24 mark_once purge
    exists_key packet_to_conn_info to4 random_tls_client_hello
injects = refl

declines :
    process_packet env after queued 0 20 no_entropy ≡ ok ((declined flow_handled, none), after)
unfolding process_packet process_meta inject_new parse_packet parse_ipv4 meta_of fill_transport_meta
    port_allowed looks_like_tls_client_hello check_lengths index slice be16 be24 mark_once purge
    exists_key text_eq flow_key digits ip_text to4
declines = refl

process_packet_sound_example :
    (m : PacketMeta) × IsTarget env processor queued 0 10 m × IsFakeOf processor m answer
process_packet_sound_example =
    process_packet_sound env processor queued 0 10 no_entropy answer none after (omega arith)
      injects refl

process_packet_complete_example :
    (a : Action) × (q : Processor) × (process_packet env processor queued 0 10 no_entropy
      ≡ ok ((a, none), q))
    × (a.inject ≡ true)
    × IsFakeOf processor the_meta a
process_packet_complete_example =
    process_packet_complete env processor queued 0 10 no_entropy the_meta (omega arith) is_target

process_packet-Returns_example :
    (r : (Action × Option PacketError) × Processor) × (process_packet env processor queued 0 10
        no_entropy
      ≡ ok r)
process_packet-Returns_example =
    process_packet-Returns env processor queued 0 10 no_entropy (omega arith)

process_packet_once_example : (declined flow_handled).inject ≡ false
process_packet_once_example =
    process_packet_once env processor after after after queued queued 0 0 10 20 no_entropy
      no_entropy answer (declined flow_handled) none none the_meta the_meta [] injects refl parses
      no_packets tt (omega arith) declines parses refl

abbrev attribute : Attribute
attribute = record { packet_id = some 3; payload = some queued; mark = none }

handle_packet-EndsAccepting_example :
    (r : List RunnerCall × Processor) × (handle_packet env processor attribute 10 no_entropy ≡ ok r)
    × EndsAccepting 3 r.0
handle_packet-EndsAccepting_example =
    handle_packet-EndsAccepting env processor attribute 3 10 no_entropy (omega arith) refl

looks_like_tls_client_hello_iff_example :
    ((b : Bool) × (looks_like_tls_client_hello hello_payload ≡ ok b))
    × ((looks_like_tls_client_hello hello_payload ≡ ok true) ↔ HasHelloShape hello_payload)
looks_like_tls_client_hello_iff_example = looks_like_tls_client_hello_iff hello_payload
