-- ===== src/Ebpf/Reader.antt =====
-- pkg/ebpf/manager.go: readEvents and injectFake. The records that the reader gives, and whether
-- each SendFake succeeds, are given; what is sent is a list, in order.
use gecit_unofficial.Base.{
  ℕ, ◌+◌, ◌^◌, ◌<◌, ◌≡◌, refl, Bool, Option, none, some, List, [], ◌∷◌, ◌++◌, arith, if◌then◌else◌,
  Outcome, ok, stuck, ◌>>=◌, length, All, Bytes, Text, ◌*◌, ◌/◌, ◌%◌, IsBytes, ap, ◌∙◌,
}
use gecit_unofficial.Dns.Server.{IpQueue, pop_domain}
use gecit_unofficial.Ebpf.Events.{event_bytes, FitsEvent, decode_event-bytes}
use gecit_unofficial.Ebpf.Manager.{decode_event, conn_of, uint32_to_ip}
use gecit_unofficial.Ebpf.Sockops.{ConnEvent}
use gecit_unofficial.Base.Int.{ℤ}
use gecit_unofficial.Fake.Shipped.{
  random_tls_client_hello-Serves, drawn-Serves, name_in_turn, profile_in_turn,
}
use gecit_unofficial.Fake.Hello.{Reads, random_tls_client_hello}
use gecit_unofficial.Router.Processor.{dotted}
use gecit_unofficial.Rawsock.Packet.{ConnInfo}
use gecit_unofficial.Router.Once.{young}
use gecit_unofficial.Fake.Sni.{parse_sni}

pub record Sent : Type 0 where
  pub conn : ConnInfo
  pub payload : Bytes
  pub ttl : ℤ

-- clientHelloCounter, and the queue of the DNS server, if there is one
pub record ReaderState : Type 0 where
  pub counter : ℕ
  pub queue : Option IpQueue

abbrev pub popped_queue : Option IpQueue → Text → Option IpQueue
popped_queue none ip = none
popped_queue (some q) ip = some (pop_domain q ip).1

-- The domain is asked for only where the fake was sent.
unfoldable pub inject_fake :
    ℤ → Reads → Bool → ReaderState → ConnEvent → Outcome (Sent × ReaderState)
inject_fake ttl rand went st evt = do
  drawn ← random_tls_client_hello st.counter rand
  let conn = conn_of evt
  let queue = if went then popped_queue st.queue (dotted conn.dst_ip) else st.queue
  ok (
    record { conn = conn; payload = drawn.0; ttl = ttl },
    record { counter = drawn.1; queue = queue },
  )

-- A Read: an error, or a record and whether its fake can be sent
abbrev pub Record : Type 0
Record = Option (Bytes × Bool)

unfoldable pub read_events :
    ℤ → Reads → List Record → ReaderState → Outcome (List Sent × ReaderState)
read_events ttl rand [] st = stuck
read_events ttl rand (none ∷ records) st = ok ([], st)
read_events ttl rand (some (sample, went) ∷ records) st = elim (decode_event sample) [
  | none ↦ read_events ttl rand records st
  | some evt ↦ do
    first ← inject_fake ttl rand went st evt
    rest ← read_events ttl rand records first.1
    ok (first.0 ∷ rest.0, rest.1)
]

-- The samples of some events, with what pads them
abbrev pub samples : Bytes → Bool → List ConnEvent → List Record
samples pad went [] = []
samples pad went (e ∷ es) = some (event_bytes e ++ pad, went) ∷ samples pad went es

inject_fake-ok :
    (ttl : ℤ) (rand : Reads) (went : Bool) (st : ReaderState) (evt : ConnEvent)
    → st.counter < 2 ^ 63
    → (payload : Bytes) × (queue : Option IpQueue) × (parse_sni payload
        ≡ ok (name_in_turn (st.counter % 3)))
      × (inject_fake ttl rand went st evt
          ≡ ok (
            record { conn = conn_of evt; payload = payload; ttl = ttl },
            record { counter = st.counter + 1; queue = queue },
          ))
unfolding inject_fake
inject_fake-ok ttl rand went st evt young =
    let (p, found, serves) = random_tls_client_hello-Serves st.counter rand young in
    let (payload, parses, drawn) =
      drawn-Serves p st.counter (random_tls_client_hello st.counter rand) serves in
    (
      payload,
      if went then popped_queue st.queue (dotted (conn_of evt).dst_ip) else st.queue,
      parses ∙ ap ok (profile_in_turn (st.counter % 3) p (omega arith) found),
      rw drawn refl,
    )

-- The four bytes of an address, from the lowest byte of the number up.
abbrev pub IsAddress : ℕ → Bytes → Type 0
IsAddress n ip =
    (a : ℕ) × (b : ℕ) × (c : ℕ) × (d : ℕ) × (ip ≡ a ∷ b ∷ c ∷ d ∷ [])
    × IsBytes (a ∷ b ∷ c ∷ d ∷ [])
    × (n ≡ a + b * 256 + c * 65536 + d * 16777216)

-- A fake from the event's source to its destination, with its numbers and the TTL.
pub record IsFakeFor (ttl : ℤ) (e : ConnEvent) (s : Sent) : Type 0 where
  pub from : IsAddress e.src_ip s.conn.src_ip
  pub to : IsAddress e.dst_ip s.conn.dst_ip
  pub from_port : s.conn.src_port ≡ e.src_port
  pub to_port : s.conn.dst_port ≡ e.dst_port
  pub at_seq : s.conn.seq ≡ e.seq
  pub at_ack : s.conn.ack ≡ e.ack
  pub with_ttl : s.ttl ≡ ttl

-- One fake for each event, in their order, with the name whose turn it is by the counter
abbrev pub AreFakesFor : ℤ → ℕ → List ConnEvent → List Sent → Type 0
AreFakesFor ttl counter [] [] = Unit
AreFakesFor ttl counter [] (s ∷ sent) = ⊥
AreFakesFor ttl counter (e ∷ es) [] = ⊥
AreFakesFor ttl counter (e ∷ es) (s ∷ sent) =
    IsFakeFor ttl e s
    × (parse_sni s.payload ≡ ok (name_in_turn (counter % 3)))
    × AreFakesFor ttl (counter + 1) es sent

uint32_to_ip-IsAddress : (n : ℕ) → n < 4294967296 → IsAddress n (uint32_to_ip n)
uint32_to_ip-IsAddress n h =
    (n % 256, n / 256 % 256, n / 65536 % 256, n / 16777216, ground arith, omega arith, omega arith)

conn_of-IsFakeFor :
    (ttl : ℤ) (e : ConnEvent) (payload : Bytes)
    → FitsEvent e
    → IsFakeFor ttl e (record { conn = conn_of e; payload = payload; ttl = ttl })
unfolding conn_of
conn_of-IsFakeFor ttl e payload fits = record {
  from = uint32_to_ip-IsAddress e.src_ip fits.src_ip;
  to = uint32_to_ip-IsAddress e.dst_ip fits.dst_ip;
  from_port = refl;
  to_port = refl;
  at_seq = refl;
  at_ack = refl;
  with_ttl = refl;
}

-- For samples of events that fit their fields, padded alike, up to the first Read that fails, and
-- whether the fakes can be sent or not: readEvents ends, and has sent one fake for each event, in
-- their order, from its event's source address and port to its destination's, at its sequence and
-- acknowledgment numbers, with the configured TTL and a payload from which ParseSNI reads the one
-- of the three names whose turn it is by the counter.
-- The counter of hellos, which ends as many higher, stays below 2^63.
pub read_events-conns :
    (ttl : ℤ) (rand : Reads) (went : Bool) (pad : Bytes) (es : List ConnEvent) (rest : List Record)
    (st : ReaderState)
    → All FitsEvent es
    → st.counter + length es < 2 ^ 63
    → (sent : List Sent) × (end : ReaderState) × (read_events ttl rand
          (samples pad went es ++ none ∷ rest)
          st
        ≡ ok (sent, end))
      × AreFakesFor ttl st.counter es sent
      × (end.counter ≡ st.counter + length es)
unfolding read_events
read_events-conns ttl rand went pad [] rest st fits young = ([], st, refl, tt, omega arith)
read_events-conns ttl rand went pad (e ∷ es) rest st fits young =
    let (payload, queue, named, first) = inject_fake-ok ttl rand went st e (omega (arith, young)) in
    let after : ReaderState = record { counter = st.counter + 1; queue = queue } in
    let (sent, end, same, fakes, counted) =
      read_events-conns ttl rand went pad es rest after fits.1 (omega (arith, young)) in
    let read = decode_event-bytes e pad fits.0 in
    (
      record { conn = conn_of e; payload = payload; ttl = ttl } ∷ sent,
      end,
      ground (arith, read, first, same),
      (conn_of-IsFakeFor ttl e payload fits.0, named, fakes),
      omega (arith, counted),
    )
