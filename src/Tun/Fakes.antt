-- ===== src/Tun/Fakes.antt =====
-- What NewConnectionEx does on a connection to a target port, in the order it does it.
use gecit_unofficial.Base.{
  ℕ, zero, suc, ◌+◌, ◌≤◌, ◌<◌, ◌≡◌, refl, inl, inr, Bool, List, [], ◌∷◌, ◌++◌, arith, if◌then◌else◌,
  Bool-cases, ok, replicate, Bytes, ap, ◌%◌, ◌^◌, true, false, some, Outcome, panic, stuck,
  get_elem?, Option, length, u16,
}
use gecit_unofficial.Base.Int.{ℤ}
use gecit_unofficial.Tun.Pipe.{cp}
use gecit_unofficial.Tun.Handler.{
  TunConfig, ServerAnswers, AppAnswers, HandlerCall, write_server, send_fakes, both, pipe,
  inject_hello, fake_sent, Shared, TcpAddr, name_destination, conn_info, inject_to,
  set_hello_deadline, clear_deadline, local_port_of, inject_and_forward,
}
use gecit_unofficial.Rawsock.Packet.{ConnInfo}
use mathlib.Core.List.{append_assoc, append-nil}
use gecit_unofficial.Fake.Shipped.{random_tls_client_hello-Serves, drawn-Serves}
use gecit_unofficial.Fake.Hello.{
  ClientHelloProfile, Reads, client_hello_profiles, random_tls_client_hello,
}
use gecit_unofficial.Fake.Sni.{parse_sni}
use gecit_unofficial.Fake.Total.{Returns, parse_sni-Returns}
use gecit_unofficial.Capture.Polls.{AreSpaced, get_seq_ack-Returns}
use gecit_unofficial.Capture.Tracker.{Conns, get_seq_ack}
use gecit_unofficial.Tun.Deadlines.{left}

pub sent_times :
    (left i : ℕ) (sent : ℕ → Bool) (conn : ConnInfo) (payload : Bytes) (ttl : ℤ)
    → (k : ℕ) × (k ≤ left)
      × (0 < left → 1 ≤ k)
      × (send_fakes left i sent conn payload ttl ≡ replicate k (fake_sent conn payload ttl))
unfolding send_fakes
sent_times zero i sent conn payload ttl = (0, omega arith, (λ h. absurd (omega arith)), refl)
sent_times (suc left) i sent conn payload ttl = elim (Bool-cases (sent i)) [
  | inr failed ↦ (1, omega arith, (λ h. omega arith), ground (arith, failed))
  | inl went ↦
      let (k, few, some_sent, same) = sent_times left (i + 1) sent conn payload ttl in
      (suc k, omega arith, (λ h. omega arith), ground (arith, went, same))
]

pipe-ok :
    (app : AppAnswers) (ups downs : List Bytes)
    → cp app.up ≡ ok ups
    → cp app.down ≡ ok downs
    → pipe app ≡ ok (both ups downs)
unfolding pipe
pipe-ok app ups downs u d = rw (u, d) refl

abbrev pub rest_of_stream : Bool → List Bytes → List Bytes → List HandlerCall
rest_of_stream written ups downs = if written then both ups downs else []

-- The calls of a connection with a fake
abbrev pub injected :
    ℕ → ConnInfo → Bytes → ℤ → Bytes → Bool → List Bytes → List Bytes → List HandlerCall
injected k conn payload ttl hello written ups downs =
    replicate k (fake_sent conn payload ttl)
    ++ write_server hello ∷ rest_of_stream written ups downs

inject_hello-ok :
    (cfg : TunConfig) (payload hello : Bytes) (conn : ConnInfo) (app : AppAnswers)
    (server : ServerAnswers) (ups downs : List Bytes)
    → cp app.up ≡ ok ups
    → cp app.down ≡ ok downs
    → (k : ℕ) × (1 ≤ k)
      × (k ≤ 3)
      × (inject_hello cfg payload hello conn app server
          ≡ ok (injected k conn payload cfg.fake_ttl hello server.hello_written ups downs))
unfolding inject_hello
inject_hello-ok cfg payload hello conn app server ups downs u d =
    let (k, few, some_sent, same) = sent_times 3 0 server.sent conn payload cfg.fake_ttl in
    let fakes = replicate k (fake_sent conn payload cfg.fake_ttl) in
    (
      k,
      some_sent (omega arith),
      few,
      elim (Bool-cases server.hello_written) [
        | inl e ↦
            rw (e, same, pipe-ok app ups downs u d)
              (ap ok (append_assoc fakes (write_server hello ∷ []) (both ups downs)))
        | inr e ↦ rw (e, same) (ap ok (append-nil (fakes ++ write_server hello ∷ [])))
      ],
    )

name_destination-ok :
    (sni : Bytes) (r : TcpAddr) → (b : Bool) × (name_destination sni (some r) ≡ ok b)
unfolding name_destination
name_destination-ok [] r = (false, refl)
name_destination-ok (c ∷ sni) r = (true, refl)

inject_to_step :
    (cfg : TunConfig) (rand : Reads) (shared : Shared) (hello : Bytes) (numbers : ℕ × ℕ)
    (app : AppAnswers) (server : ServerAnswers) (l r : TcpAddr) (payload : Bytes) (next : ℕ)
    (calls : List HandlerCall)
    → server.local_addr ≡ some l
    → server.remote_addr ≡ some r
    → random_tls_client_hello shared.counter rand ≡ ok (payload, next)
    → inject_hello cfg payload hello (conn_info l r numbers) app server ≡ ok calls
    → inject_to cfg rand shared hello numbers app server
      ≡ ok (calls, record shared { counter = next })
unfolding inject_to
inject_to_step cfg rand shared hello numbers app server l r payload next calls at_l at_r drawn
      same =
    ground (arith, at_l, at_r, drawn, same)

inject_and_forward_step :
    (cfg : TunConfig) (rand : Reads) (shared : Shared) (hello sni : Bytes) (app : AppAnswers)
    (server : ServerAnswers) (named : Bool) (answer : (ℕ × ℕ) × Option Conns)
    (rest : List HandlerCall × Shared)
    → app.hello ≡ some hello
    → parse_sni hello ≡ ok sni
    → name_destination sni server.remote_addr ≡ ok named
    → get_seq_ack shared.tracker (local_port_of server.local_addr) server.asked server.polls
      ≡ ok answer
    → inject_to cfg rand (record shared { tracker = answer.1 }) hello answer.0 app server ≡ ok rest
    → inject_and_forward cfg rand shared app server
      ≡ ok (set_hello_deadline ∷ clear_deadline ∷ rest.0, rest.1)
unfolding inject_and_forward
inject_and_forward_step cfg rand shared hello sni app server named answer rest said read name
      numbers same =
    ground (arith, said, read, name, numbers, same)

parse_sni-ok : (hello : Bytes) → (sni : Bytes) × (parse_sni hello ≡ ok sni)
parse_sni-ok hello = of_outcome (parse_sni hello) (parse_sni-Returns hello)
  where
    of_outcome : (o : Outcome Bytes) → Returns o → (sni : Bytes) × (o ≡ ok sni)
    of_outcome (ok sni) h = (sni, refl)
    of_outcome panic h = absurd h
    of_outcome stuck h = absurd h

-- What the application's and the server's connections are, where both are TCP and the streams end
module _ (cfg : TunConfig) (rand : Reads) (shared : Shared) (app : AppAnswers)
    (server : ServerAnswers) (hello : Bytes) (l r : TcpAddr) (ups downs : List Bytes)
    (said : app.hello ≡ some hello) (at_l : server.local_addr ≡ some l)
    (at_r : server.remote_addr ≡ some r) (young : shared.counter < 2 ^ 63) (up : cp app.up ≡ ok ups)
    (down : cp app.down ≡ ok downs) where
  inject_to-ok :
      (numbers : ℕ × ℕ) (tracker : Option Conns)
      → (k : ℕ) × (payload : Bytes) × (p : ClientHelloProfile) × (1 ≤ k)
        × (k ≤ 3)
        × (get_elem? client_hello_profiles (shared.counter % 3) ≡ some p)
        × (parse_sni payload ≡ ok p.server_name)
        × (inject_to cfg rand (record shared { tracker = tracker }) hello numbers app server
            ≡ ok (
              injected k
                  (conn_info l r numbers)
                  payload
                  cfg.fake_ttl
                  hello
                  server.hello_written
                  ups
                  downs,
              record shared { tracker = tracker; counter = shared.counter + 1 },
            ))
  inject_to-ok numbers tracker =
      let (p, found, serves) = random_tls_client_hello-Serves shared.counter rand young in
      let (payload, parses, drawn) =
        drawn-Serves p shared.counter (random_tls_client_hello shared.counter rand) serves in
      let (k, some_sent, few, same) =
        inject_hello-ok cfg payload hello (conn_info l r numbers) app server ups downs up down in
      (
        k,
        payload,
        p,
        some_sent,
        few,
        found,
        parses,
        inject_to_step cfg rand (record shared { tracker = tracker }) hello numbers app server l r
            payload (shared.counter + 1)
            (injected k (conn_info l r numbers) payload cfg.fake_ttl hello server.hello_written ups
              downs)
            at_l at_r drawn same,
      )

  pub injected_with :
      (answer : (ℕ × ℕ) × Option Conns)
      → get_seq_ack shared.tracker (some (u16 l.port)) server.asked server.polls ≡ ok answer
      → (k : ℕ) × (payload : Bytes) × (p : ClientHelloProfile) × (1 ≤ k)
        × (k ≤ 3)
        × (get_elem? client_hello_profiles (shared.counter % 3) ≡ some p)
        × (parse_sni payload ≡ ok p.server_name)
        × (inject_and_forward cfg rand shared app server
            ≡ ok (
              set_hello_deadline
                  ∷ clear_deadline
                  ∷ injected k
                      (conn_info l r answer.0)
                      payload
                      cfg.fake_ttl
                      hello
                      server.hello_written
                      ups
                      downs,
              record shared { tracker = answer.1; counter = shared.counter + 1 },
            ))
  injected_with answer numbers =
      let (sni, read) = parse_sni-ok hello in
      let (named, name) = name_destination-ok sni r in
      let (k, payload, p, some_sent, few, found, parses, same) = inject_to-ok answer.0 answer.1 in
      (
        k,
        payload,
        p,
        some_sent,
        few,
        found,
        parses,
        inject_and_forward_step cfg rand shared hello sni app server named answer
            (
              injected k (conn_info l r answer.0) payload cfg.fake_ttl hello server.hello_written
                  ups downs,
              record shared { tracker = answer.1; counter = shared.counter + 1 },
            )
            said read (rw at_r name) (rw at_l numbers) same,
      )

  -- A connection between TCP addresses whose ClientHello was read, where both copying loops end,
  -- the tracker has 501 rounds a millisecond or more apart, and the counter of hellos is below
  -- 2^63: injectAndForward returns. It sends between one and three fakes, all the same, from the
  -- server connection's local to its remote address with the numbers that GetSeqAck gives, and
  -- only then writes the ClientHello as it was read; if that succeeds, the two streams follow.
  -- ParseSNI reads the name of the profile at the counter modulo three from the fake.
  pub inject_and_forward-injected :
      AreSpaced server.asked server.polls
      → 501 ≤ length server.polls
      → (answer : (ℕ × ℕ) × Option Conns) × (k : ℕ) × (payload : Bytes) × (p : ClientHelloProfile)
        × (get_seq_ack shared.tracker (some (u16 l.port)) server.asked server.polls ≡ ok answer)
        × (1 ≤ k)
        × (k ≤ 3)
        × (get_elem? client_hello_profiles (shared.counter % 3) ≡ some p)
        × (parse_sni payload ≡ ok p.server_name)
        × (inject_and_forward cfg rand shared app server
            ≡ ok (
              set_hello_deadline
                  ∷ clear_deadline
                  ∷ injected k
                      (conn_info l r answer.0)
                      payload
                      cfg.fake_ttl
                      hello
                      server.hello_written
                      ups
                      downs,
              record shared { tracker = answer.1; counter = shared.counter + 1 },
            ))
  inject_and_forward-injected spaced enough =
      let (answer, numbers) =
        get_seq_ack-Returns shared.tracker (some (u16 l.port)) server.asked server.polls spaced
          enough in
      let (k, payload, p, some_sent, few, found, parses, same) = injected_with answer numbers in
      (answer, k, payload, p, numbers, some_sent, few, found, parses, same)
