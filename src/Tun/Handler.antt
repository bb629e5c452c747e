-- ===== src/Tun/Handler.antt =====
-- pkg/tun/handler.go: NewConnectionEx, injectAndForward and NewPacketConnectionEx. What the two
-- connections, the dialer and the raw socket answer is given; what the handler does to them is a
-- list of calls, in order. The name that is logged for the destination is left out, but not what
-- finding it does.
use gecit_unofficial.Base.{
  ℕ, zero, suc, ◌+◌, Bool, true, false, not, ◌||◌, Option, none, some, List, [], ◌∷◌, ◌++◌, map,
  if◌then◌else◌, Outcome, ok, panic, ◌>>=◌, Bytes, u16, Text,
}
use gecit_unofficial.Dns.Server.{IpQueue, pop_domain}
use gecit_unofficial.Base.Int.{ℤ}
use gecit_unofficial.Fake.Sni.{parse_sni}
use gecit_unofficial.Capture.Packet.{has_port}
use gecit_unofficial.Capture.Tracker.{Conns, Poll, get_seq_ack}
use gecit_unofficial.Tun.Pipe.{Round, cp, relay_packets}
use gecit_unofficial.Rawsock.Packet.{ConnInfo}
use gecit_unofficial.Fake.Hello.{Reads, random_tls_client_hello}
use gecit_unofficial.Tun.Deadlines.{left}

-- What the handler shares with the rest of the program: the DNS server's queue and the tracker,
-- where there are such
pub record Shared : Type 0 where
  pub queue : Option IpQueue
  pub tracker : Option Conns
  -- clientHelloCounter
  pub counter : ℕ

pub record TunConfig : Type 0 where
  pub ports : List ℕ
  pub fake_ttl : ℤ
  pub interface : Text

pub record Destination : Type 0 where
  pub is_valid : Bool
  pub addr_string : Text
  pub port : ℕ

-- An address that is a *net.TCPAddr
pub record TcpAddr : Type 0 where
  pub ip : Bytes
  pub port : ℕ

-- The server's connection, and what becomes of it
pub record ServerAnswers : Type 0 where
  pub local_addr : Option TcpAddr
  pub remote_addr : Option TcpAddr
  -- the time at which GetSeqAck is called, and its rounds
  pub asked : ℕ
  pub polls : List Poll
  pub sent : ℕ → Bool
  pub hello_written : Bool

pub record AppAnswers : Type 0 where
  -- the first Read; `none` is an error
  pub hello : Option Bytes
  pub up : List Round
  pub down : List Round

pub data HandlerCall : Type 0 where
  set_hello_deadline clear_deadline : HandlerCall
  fake_sent : ConnInfo → Bytes → ℤ → HandlerCall
  write_server : Bytes → HandlerCall
  write_app : Bytes → HandlerCall
  close_server close_app on_close : HandlerCall

-- for i := 0; i < 3; i++, which the first error ends
unfoldable pub send_fakes : ℕ → ℕ → (ℕ → Bool) → ConnInfo → Bytes → ℤ → List HandlerCall
send_fakes zero i sent conn payload ttl = []
send_fakes (suc left) i sent conn payload ttl =
    let rest = send_fakes left (i + 1) sent conn payload ttl in
    if sent i then fake_sent conn payload ttl ∷ rest else fake_sent conn payload ttl ∷ []

-- resolveDst, for what it does to the DNS server
unfoldable pub resolve_dst : Option IpQueue → Text → Option IpQueue
resolve_dst none ip = none
resolve_dst (some q) ip = some (pop_domain q ip).1

abbrev pub both : List Bytes → List Bytes → List HandlerCall
both ups downs = map write_server ups ++ map write_app downs

-- pipe: the two directions, one listed after the other
unfoldable pub pipe : AppAnswers → Outcome (List HandlerCall)
pipe app = do ups ← cp app.up; downs ← cp app.down; ok (both ups downs)

abbrev pub preceded_by : List HandlerCall → Outcome (List HandlerCall) → Outcome (List HandlerCall)
preceded_by calls o = o >>= (λ rest. ok (calls ++ rest))

-- Whether the name is taken from SNI: fmt.Sprintf then takes the port of an address that must be a
-- *net.TCPAddr.
unfoldable pub name_destination : Bytes → Option TcpAddr → Outcome Bool
name_destination [] remote = ok false
name_destination (c ∷ sni) none = panic
name_destination (c ∷ sni) (some remote) = ok true

unfoldable pub conn_info : TcpAddr → TcpAddr → ℕ × ℕ → ConnInfo
conn_info server remote numbers = record {
  src_ip = server.ip;
  dst_ip = remote.ip;
  src_port = u16 server.port;
  dst_port = u16 remote.port;
  seq = numbers.0;
  ack = numbers.1;
}

-- From the fakes on
unfoldable pub inject_hello :
    TunConfig → Bytes → Bytes → ConnInfo → AppAnswers → ServerAnswers → Outcome (List HandlerCall)
inject_hello cfg fake_payload hello conn app server =
    preceded_by
      (send_fakes 3 0 server.sent conn fake_payload cfg.fake_ttl ++ write_server hello ∷ [])
      (if server.hello_written then pipe app else ok [])

abbrev pub local_port_of : Option TcpAddr → Option ℕ
local_port_of none = none
local_port_of (some addr) = some (u16 addr.port)

-- The addresses, the payload, and from there on
unfoldable pub inject_to :
    TunConfig
    → Reads
    → Shared
    → Bytes
    → ℕ × ℕ
    → AppAnswers
    → ServerAnswers
    → Outcome (List HandlerCall × Shared)
inject_to cfg rand shared hello numbers app server = elim server.local_addr [
  | none ↦ ok ([], shared)
  | some l ↦ elim server.remote_addr [
    | none ↦ ok ([], shared)
    | some r ↦ do
      drawn ← random_tls_client_hello shared.counter rand
      calls ← inject_hello cfg drawn.0 hello (conn_info l r numbers) app server
      ok (calls, record shared { counter = drawn.1 })
  ]
]

-- The connection of the dialer is a *net.TCPConn where its addresses are those of TCP.
unfoldable pub inject_and_forward :
    TunConfig → Reads → Shared → AppAnswers → ServerAnswers → Outcome (List HandlerCall × Shared)
inject_and_forward cfg rand shared app server = elim app.hello [
  | none ↦ ok (set_hello_deadline ∷ [], shared)
  | some hello ↦ do
    sni ← parse_sni hello
    named ← name_destination sni server.remote_addr
    answer ← get_seq_ack shared.tracker (local_port_of server.local_addr) server.asked server.polls
    rest ← inject_to cfg rand (record shared { tracker = answer.1 }) hello answer.0 app server
    ok (set_hello_deadline ∷ clear_deadline ∷ rest.0, rest.1)
]

-- The deferred calls, the last first
abbrev pub closing : Bool → Bool → Bool → List HandlerCall
closing dialled opened has_on_close =
    (if dialled then close_server ∷ [] else [])
    ++ (if opened then close_app ∷ [] else [])
    ++ (if has_on_close then on_close ∷ [] else [])

-- What the connection is: not nil, and with an onClose; and the answer of the dialer, nil for an
-- error
pub record Arrival : Type 0 where
  pub has_conn : Bool
  pub has_on_close : Bool
  pub destination : Destination
  pub dialled : Option ServerAnswers

abbrev pub forwarded :
    TunConfig
    → Reads
    → Shared
    → ℕ
    → AppAnswers
    → ServerAnswers
    → Outcome (List HandlerCall × Shared)
forwarded cfg rand shared port app server =
    if not (has_port port cfg.ports)
    then (pipe app >>= (λ calls. ok (calls, shared)))
    else inject_and_forward cfg rand shared app server

abbrev pub resolved : Shared → Arrival → Shared
resolved shared arrival = record shared {
  queue = resolve_dst shared.queue arrival.destination.addr_string;
}

unfoldable pub new_connection_ex :
    TunConfig → Reads → Shared → Arrival → AppAnswers → Outcome (List HandlerCall × Shared)
new_connection_ex cfg rand shared arrival app =
    if not arrival.has_conn || not arrival.destination.is_valid
    then ok (closing false false arrival.has_on_close, shared)
    else elim arrival.dialled [
      | none ↦ ok (closing false true arrival.has_on_close, resolved shared arrival)
      | some server ↦
          forwarded cfg rand (resolved shared arrival) arrival.destination.port app server
          >>= (λ r. ok (r.0 ++ closing true true arrival.has_on_close, r.1))
    ]

-- NewPacketConnectionEx: the packets of the two directions, one direction listed after the other.
-- The goroutine of the second is awaited before the deferred calls.
unfoldable pub new_packet_connection_ex :
    Bool → Bool → Bool → Bool → List Round → List Round → Outcome (List HandlerCall)
new_packet_connection_ex has_conn is_valid has_on_close dialled up down =
    if not has_conn || not is_valid
    then ok (closing false false has_on_close)
    else if not dialled
    then ok (closing false true has_on_close)
    else do
      ups ← relay_packets up
      downs ← relay_packets down
      ok (both ups downs ++ closing true true has_on_close)
