-- ===== src/Tun/Stream.antt =====
-- The bytes of a connection with a fake, and where the fake stands: the capture, the tracker and
-- the handler together.
use gecit_unofficial.Base.{
  ℕ, zero, suc, ◌≡◌, refl, sym, Bool, true, List, [], ◌∷◌, ◌++◌, replicate, Bytes, ap, ◌∙◌, false,
  some, arith, ok, not, ◌||◌, ◌+◌, ◌^◌, ◌≤◌, ◌<◌, length, All, none, u16, Option, u32,
}
use gecit_unofficial.Base.Int.{ℤ}
use gecit_unofficial.Tun.Pipe.{concat, Round, cp, received, IsFine, cp-received}
use gecit_unofficial.Tun.Handler.{
  HandlerCall, fake_sent, write_server, write_app, both, closing, Shared, TunConfig, ServerAnswers,
  AppAnswers, inject_and_forward, Arrival, new_connection_ex, forwarded, TcpAddr,
  set_hello_deadline, clear_deadline, conn_info, resolved,
}
use gecit_unofficial.Rawsock.Packet.{ConnInfo, build_tcp_header}
use mathlib.Core.List.{append_assoc, append-nil}
use gecit_unofficial.Fake.Hello.{Reads}
use gecit_unofficial.Capture.Packet.{
  has_port, Captured, Handshake, syn_ack, first_segment, captured,
}
use gecit_unofficial.Tun.Fakes.{injected, inject_and_forward-injected, injected_with}
use gecit_unofficial.Tun.Closing.{is_open}
use gecit_unofficial.Capture.Polls.{AreSpaced}
use gecit_unofficial.Capture.Fresh.{newest, IsQuiet}
use gecit_unofficial.Capture.Tracker.{Conns, load, Poll, seq_ack_timeout, get_seq_ack}
use gecit_unofficial.Capture.Delivery.{get_seq_ack-first_segment}
use gecit_unofficial.Tun.Deadlines.{left}

-- What is handed to the server's Write, one after the other
abbrev pub server_stream : List HandlerCall → Bytes
server_stream [] = []
server_stream (write_server b ∷ calls) = b ++ server_stream calls
server_stream (call ∷ calls) = server_stream calls

-- and to the application's
abbrev pub app_stream : List HandlerCall → Bytes
app_stream [] = []
app_stream (write_app b ∷ calls) = b ++ app_stream calls
app_stream (call ∷ calls) = app_stream calls

both-streams :
    (ups downs : List Bytes) (rest : List HandlerCall)
    → (server_stream (both ups downs ++ rest) ≡ concat ups ++ server_stream rest)
      × (app_stream (both ups downs ++ rest) ≡ concat downs ++ app_stream rest)
both-streams [] [] rest = (refl, refl)
both-streams [] (b ∷ downs) rest =
    let (s, a) = both-streams [] downs rest in
    (s, rw a (sym (append_assoc b (concat downs) (app_stream rest))))
both-streams (b ∷ ups) downs rest =
    let (s, a) = both-streams ups downs rest in
    (rw s (sym (append_assoc b (concat ups) (server_stream rest))), a)

fakes-streams :
    (k : ℕ) (conn : ConnInfo) (payload : Bytes) (ttl : ℤ) (rest : List HandlerCall)
    → (server_stream (replicate k (fake_sent conn payload ttl) ++ rest) ≡ server_stream rest)
      × (app_stream (replicate k (fake_sent conn payload ttl) ++ rest) ≡ app_stream rest)
fakes-streams zero conn payload ttl rest = (refl, refl)
fakes-streams (suc k) conn payload ttl rest = fakes-streams k conn payload ttl rest

closing-streams :
    (called : Bool)
    → (server_stream (closing true true called) ≡ []) × (app_stream (closing true true called) ≡ [])
closing-streams true = (refl, refl)
closing-streams false = (refl, refl)

injected-streams :
    (k : ℕ) (conn : ConnInfo) (payload : Bytes) (ttl : ℤ) (hello : Bytes) (ups downs : List Bytes)
    (called : Bool)
    → (server_stream (injected k conn payload ttl hello true ups downs ++ closing true true called)
        ≡ hello ++ concat ups)
      × (app_stream (injected k conn payload ttl hello true ups downs ++ closing true true called)
          ≡ concat downs)
injected-streams k conn payload ttl hello ups downs called =
    let fakes = replicate k (fake_sent conn payload ttl) in
    let last = closing true true called in
    let (fs, fa) = fakes-streams k conn payload ttl (write_server hello ∷ both ups downs ++ last) in
    let (bs, ba) = both-streams ups downs last in
    let (cs, ca) = closing-streams called in
    let e = append_assoc fakes (write_server hello ∷ both ups downs) last in
    (
      ap server_stream e
          ∙ fs
          ∙ ap (◌++◌ hello) (bs ∙ ap (◌++◌ (concat ups)) cs ∙ append-nil (concat ups)),
      ap app_stream e ∙ fa ∙ ba ∙ ap (◌++◌ (concat downs)) ca ∙ append-nil (concat downs),
    )

target_step :
    (cfg : TunConfig) (rand : Reads) (shared : Shared) (arrival : Arrival) (app : AppAnswers)
    (server : ServerAnswers) (q : List HandlerCall × Shared)
    → is_open arrival ≡ true
    → arrival.dialled ≡ some server
    → has_port arrival.destination.port cfg.ports ≡ true
    → inject_and_forward cfg rand (resolved shared arrival) app server ≡ ok q
    → new_connection_ex cfg rand shared arrival app
      ≡ ok (q.0 ++ closing true true arrival.has_on_close, q.1)
unfolding new_connection_ex
target_step cfg rand shared arrival app server q opened dialled target same =
    let shut : (not arrival.has_conn || not arrival.destination.is_valid) ≡ false =
      ground (arith, opened) in
    let goes : forwarded cfg rand (resolved shared arrival) arrival.destination.port app server
        ≡ ok q =
      rw target same in
    ground (arith, shut, dialled, goes)

injected_first :
    (k : ℕ) (conn : ConnInfo) (payload : Bytes) (ttl : ℤ) (hello : Bytes) (written : Bool)
    (ups downs : List Bytes)
    → 1 ≤ k
    → (j : ℕ) × (injected k conn payload ttl hello written ups downs
        ≡ fake_sent conn payload ttl ∷ injected j conn payload ttl hello written ups downs)
injected_first zero conn payload ttl hello written ups downs h = absurd (omega arith)
injected_first (suc k) conn payload ttl hello written ups downs h = (k, refl)

-- The TCP header is made of the ports and the numbers.
build_tcp_header-same :
    (a b : ConnInfo)
    → a.src_port ≡ b.src_port
    → a.dst_port ≡ b.dst_port
    → a.seq ≡ b.seq
    → a.ack ≡ b.ack
    → build_tcp_header a ≡ build_tcp_header b
unfolding build_tcp_header
build_tcp_header-same a b s d n k = simp (s, d, n, k)

-- A connection to a target port whose dialled connection is TCP
module _ (cfg : TunConfig) (rand : Reads) (shared : Shared) (arrival : Arrival) (app : AppAnswers)
    (server : ServerAnswers) (hello : Bytes) (l r : TcpAddr) (opened : is_open arrival ≡ true)
    (dialled : arrival.dialled ≡ some server)
    (target : has_port arrival.destination.port cfg.ports ≡ true) (said : app.hello ≡ some hello)
    (at_l : server.local_addr ≡ some l) (at_r : server.remote_addr ≡ some r)
    (young : shared.counter < 2 ^ 63) where
  -- For a connection to a target port that was dialled over TCP, while the counter of hellos is
  -- below 2^63 and GetSeqAck has 501 rounds a millisecond or more apart: where the ClientHello is
  -- read and written, and each direction's rounds succeed up to one whose Read fails,
  -- NewConnectionEx returns; what the server is handed is the ClientHello and then what was read
  -- from the application, what the application is handed is what was read from the server; no
  -- byte is added, lost or out of order.
  pub new_connection_ex-streams :
      (fine_up fine_down rest_up rest_down : List Round) (last_up last_down : Round)
      → server.hello_written ≡ true
      → AreSpaced server.asked server.polls
      → 501 ≤ length server.polls
      → app.up ≡ fine_up ++ last_up ∷ rest_up
      → All IsFine fine_up
      → last_up.read_failed ≡ true
      → app.down ≡ fine_down ++ last_down ∷ rest_down
      → All IsFine fine_down
      → last_down.read_failed ≡ true
      → (q : List HandlerCall × Shared) × (new_connection_ex cfg rand shared arrival app ≡ ok q)
        × (server_stream q.0 ≡ hello ++ (received fine_up ++ last_up.got))
        × (app_stream q.0 ≡ received fine_down ++ last_down.got)
  new_connection_ex-streams fine_up fine_down rest_up rest_down last_up last_down written spaced
        enough is_up fu lu is_down fd ld =
      let (ups, u, su) = cp-received fine_up last_up rest_up fu lu in
      let (downs, d, sd) = cp-received fine_down last_down rest_down fd ld in
      let (answer, k, payload, p, numbers, few, most, found, parses, same) =
        inject_and_forward-injected cfg rand (resolved shared arrival) app server hello l r ups
          downs said at_l at_r young (ap cp is_up ∙ u) (ap cp is_down ∙ d) spaced enough in
      let calls =
        set_hello_deadline
        ∷ clear_deadline
        ∷ injected k (conn_info l r answer.0) payload cfg.fake_ttl hello server.hello_written ups
            downs in
      let after = record (resolved shared arrival) {
        tracker = answer.1;
        counter = shared.counter + 1;
      } in
      let (ss, sa) =
        injected-streams k (conn_info l r answer.0) payload cfg.fake_ttl hello ups downs
          arrival.has_on_close in
      let finish : Bool → List HandlerCall = λ w.
        injected k (conn_info l r answer.0) payload cfg.fake_ttl hello w ups downs
        ++ closing true true arrival.has_on_close in
      (
        (calls ++ closing true true arrival.has_on_close, after),
        target_step cfg rand shared arrival app server (calls, after) opened dialled target same,
        ap (λ w. server_stream (finish w)) written ∙ ss ∙ ap (◌++◌ hello) su,
        ap (λ w. app_stream (finish w)) written ∙ sa ∙ sd,
      )

  -- From the handshake on the wire to the fake. For a connection to a target port that was
  -- dialled over TCP with the ports of a handshake to port 443, which the capture listens for:
  -- where its ClientHello is read, both copying loops end and the counter of hellos is below
  -- 2^63, and the tracker has no entry for the local port, the rounds of GetSeqAck bring none for
  -- a while and then, within 500 ms, one brings what the capture made of packets among which is
  -- the server's SYN-ACK, with none for the port behind it: NewConnectionEx returns, and before
  -- it writes anything to the server it sends a fake with the configured TTL whose TCP header is
  -- that of a segment with the handshake's ports and with the sequence and acknowledgement
  -- numbers of the client's first data segment.
  pub new_connection_ex-first_segment :
      (ports : List ℕ) (h : Handshake) (cs : Conns) (quiet rest : List Poll) (now : ℕ)
      (before following : List Captured) (ups downs : List Bytes)
      → h.server_port ≡ 443
      → has_port 443 ports ≡ true
      → u16 l.port ≡ h.client_port
      → u16 r.port ≡ h.server_port
      → shared.tracker ≡ some cs
      → load h.client_port cs ≡ none
      → All (IsQuiet h.client_port (server.asked + seq_ack_timeout)) quiet
      → now < server.asked + seq_ack_timeout
      → newest h.client_port none (captured ports following) ≡ none
      → server.polls
        ≡ quiet
          ++ record { now = now; arrivals = captured ports (before ++ syn_ack h ∷ following) }
            ∷ rest
      → cp app.up ≡ ok ups
      → cp app.down ≡ ok downs
      → (q : List HandlerCall × Shared) × (fake : ConnInfo) × (payload : Bytes) × (later : List
          HandlerCall)
        × (new_connection_ex cfg rand shared arrival app ≡ ok q)
        × (q.0 ≡ set_hello_deadline ∷ clear_deadline ∷ fake_sent fake payload cfg.fake_ttl ∷ later)
        × (build_tcp_header fake ≡ build_tcp_header (first_segment h))
  unfolding conn_info
  new_connection_ex-first_segment ports h cs quiet rest now before following ups downs to_443 on
        from to tracked clean q early none_behind seen u d =
      let (left, answered, gone) =
        get_seq_ack-first_segment ports h cs server.asked quiet rest now before following to_443 on
          clean q early none_behind in
      let answer : (ℕ × ℕ) × Option Conns =
        ((u32 (h.client_isn + 1), u32 (h.server_isn + 1)), some left) in
      let numbers : get_seq_ack shared.tracker (some (u16 l.port)) server.asked server.polls
          ≡ ok answer =
        rw (tracked, from, seen) answered in
      let (k, payload, p, few, most, found, parses, same) =
        injected_with cfg rand (resolved shared arrival) app server hello l r ups downs said at_l
          at_r young u d answer numbers in
      let fake = conn_info l r answer.0 in
      let (j, first) =
        injected_first k fake payload cfg.fake_ttl hello server.hello_written ups downs few in
      let later =
        injected j fake payload cfg.fake_ttl hello server.hello_written ups downs
        ++ closing true true arrival.has_on_close in
      let calls =
        set_hello_deadline
        ∷ clear_deadline
        ∷ injected k fake payload cfg.fake_ttl hello server.hello_written ups downs in
      let end = record (resolved shared arrival) {
        tracker = some left;
        counter = shared.counter + 1;
      } in
      (
        (calls ++ closing true true arrival.has_on_close, end),
        fake,
        payload,
        later,
        target_step cfg rand shared arrival app server (calls, end) opened dialled target same,
        ap
            (λ x.
              set_hello_deadline ∷ clear_deadline ∷ (x ++ closing true true arrival.has_on_close))
            first,
        build_tcp_header-same fake (first_segment h) from to refl refl,
      )
