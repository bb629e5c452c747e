-- ===== src/Tun/Tests.antt =====
-- The theorems on the TUN handler and manager at a concrete connection.
use gecit_unofficial.Base.{
  ℕ, zero, suc, ◌+◌, ◌%◌, ◌≤◌, ◌≡◌, refl, ap, true, false, Option, none, some, List, [], ◌∷◌, ◌++◌,
  arith, ok, length, get_elem?, All, Bytes, u16, codes,
}
use gecit_unofficial.Base.Int.{pos}
use gecit_unofficial.Fake.Hello.{ClientHelloProfile, client_hello_profiles}
use gecit_unofficial.Fake.Sni.{parse_sni}
use gecit_unofficial.Capture.Tests.{hand, https-has_port, load-none, captured_nothing, quiet_poll}
use gecit_unofficial.Capture.Polls.{AreSpaced}
use gecit_unofficial.Capture.Packet.{has_port, syn_ack, first_segment, captured}
use gecit_unofficial.Capture.Tracker.{Conns, Poll, get_seq_ack}
use gecit_unofficial.Tun.Pipe.{Round, cp}
use gecit_unofficial.Tun.Lifecycle.{start_failed_leaves}
use gecit_unofficial.Tun.Fakes.{injected, inject_and_forward-injected}
use gecit_unofficial.Tun.Handler.{
  Shared, TunConfig, TcpAddr, ServerAnswers, AppAnswers, HandlerCall, set_hello_deadline,
  clear_deadline, fake_sent, write_server, write_app, close_server, close_app, on_close,
  resolve_dst, pipe, conn_info, inject_and_forward, Arrival, new_connection_ex,
}
use gecit_unofficial.Tun.Closing.{
  IsWork, IsNoFake, new_connection_ex-closing, new_connection_ex-IsNoFake,
}
use gecit_unofficial.Tun.Stream.{
  server_stream, app_stream, new_connection_ex-streams, new_connection_ex-first_segment,
}
use gecit_unofficial.Tun.Manager.{
  Opened, TunAnswers, start_stack_error, new_tun_manager, start_seq_tracker, init_networking,
  start_device, manager_start,
}
use gecit_unofficial.Tun.Deadlines.{
  arming, finished, Pipe, set_read_deadline, set_deadline_a, set_deadline_b, PipeEvent, read_data,
  read_nothing, write_error,
}
use gecit_unofficial.Rawsock.Packet.{ConnInfo, build_tcp_header}

-- Rounds a millisecond apart
abbrev ticks : ℕ → ℕ → List Poll
ticks zero since = []
ticks (suc n) since = record { now = since + 1000000; arrivals = [] } ∷ ticks n (since + 1000000)

ticks-AreSpaced : (n since : ℕ) → AreSpaced since (ticks n since)
ticks-AreSpaced zero since = tt
ticks-AreSpaced (suc n) since = (omega arith, ticks-AreSpaced n (since + 1000000))

length-ticks : (n since : ℕ) → length (ticks n since) ≡ n
length-ticks zero since = refl
length-ticks (suc n) since = ap suc (length-ticks n (since + 1000000))

enough_ticks : 501 ≤ length (ticks 501 0)
enough_ticks = omega (arith, length-ticks 501 0)

abbrev client : TcpAddr
client = record { ip = 192 ∷ 168 ∷ 1 ∷ 7 ∷ []; port = 50000 }

abbrev site : TcpAddr
site = record { ip = 93 ∷ 184 ∷ 216 ∷ 34 ∷ []; port = 443 }

abbrev https : TunConfig
https = record { ports = 443 ∷ []; fake_ttl = pos 8; interface = codes "en0" }

abbrev last_round : Round
last_round = record { got = 5 ∷ 6 ∷ []; read_failed = true; write_failed = false }

abbrev fine_round : Round
fine_round = record { got = 1 ∷ 2 ∷ []; read_failed = false; write_failed = false }

abbrev browser : AppAnswers
browser = record {
  hello = some (22 ∷ 3 ∷ []);
  up = fine_round ∷ last_round ∷ [];
  down = last_round ∷ [];
}

abbrev server_at : List Poll → ServerAnswers
server_at polls = record {
  local_addr = some client;
  remote_addr = some site;
  asked = 0;
  polls = polls;
  sent = λ i. true;
  hello_written = true;
}

abbrev shared : Shared
shared = record { queue = none; tracker = some []; counter = 0 }

abbrev arrival : ServerAnswers → ℕ → Arrival
arrival server port = record {
  has_conn = true;
  has_on_close = true;
  destination = record { is_valid = true; addr_string = codes "93.184.216.34"; port = port };
  dialled = some server;
}

browser_up : cp browser.up ≡ ok ((1 ∷ 2 ∷ []) ∷ (5 ∷ 6 ∷ []) ∷ [])
unfolding cp
browser_up = refl

browser_down : cp browser.down ≡ ok ((5 ∷ 6 ∷ []) ∷ [])
unfolding cp
browser_down = refl

abbrev seen_polls : List Poll
seen_polls =
    (quiet_poll ∷ [])
    ++ record { now = 1000010; arrivals = captured (443 ∷ []) ([] ++ syn_ack hand ∷ []) } ∷ []

new_connection_ex-first_segment_example :
    (q : List HandlerCall × Shared) × (fake : ConnInfo) × (payload : Bytes) × (later : List
      HandlerCall)
    × (new_connection_ex https (λ k. none) shared (arrival (server_at seen_polls) 443) browser
        ≡ ok q)
    × (q.0 ≡ set_hello_deadline ∷ clear_deadline ∷ fake_sent fake payload (pos 8) ∷ later)
    × (build_tcp_header fake ≡ build_tcp_header (first_segment hand))
new_connection_ex-first_segment_example =
    new_connection_ex-first_segment https (λ k. none) shared (arrival (server_at seen_polls) 443)
      browser (server_at seen_polls) (22 ∷ 3 ∷ []) client site refl refl https-has_port refl refl
      refl (omega arith) (443 ∷ []) hand [] (quiet_poll ∷ []) [] 1000010 [] []
      ((1 ∷ 2 ∷ []) ∷ (5 ∷ 6 ∷ []) ∷ []) ((5 ∷ 6 ∷ []) ∷ []) refl https-has_port refl refl refl
      load-none ((omega arith, refl), tt) (omega arith) captured_nothing refl browser_up
      browser_down

new_connection_ex-streams_example :
    (q : List HandlerCall × Shared) × (new_connection_ex https
        (λ k. none)
        shared
        (arrival (server_at (ticks 501 0)) 443)
        browser
      ≡ ok q)
    × (server_stream q.0 ≡ 22 ∷ 3 ∷ 1 ∷ 2 ∷ 5 ∷ 6 ∷ [])
    × (app_stream q.0 ≡ 5 ∷ 6 ∷ [])
new_connection_ex-streams_example =
    new_connection_ex-streams https (λ k. none) shared (arrival (server_at (ticks 501 0)) 443)
      browser (server_at (ticks 501 0)) (22 ∷ 3 ∷ []) client site refl refl https-has_port refl refl
      refl (omega arith) (fine_round ∷ []) [] [] [] last_round last_round refl
      (ticks-AreSpaced 501 0) enough_ticks refl ((refl, refl), tt) refl refl tt refl

inject_and_forward-injected_example :
    (answer : (ℕ × ℕ) × Option Conns) × (k : ℕ) × (payload : Bytes) × (p : ClientHelloProfile)
    × (get_seq_ack (some []) (some (u16 50000)) 0 (ticks 501 0) ≡ ok answer)
    × (1 ≤ k)
    × (k ≤ 3)
    × (get_elem? client_hello_profiles (0 % 3) ≡ some p)
    × (parse_sni payload ≡ ok p.server_name)
    × (inject_and_forward https (λ j. none) shared browser (server_at (ticks 501 0))
        ≡ ok (
          set_hello_deadline
              ∷ clear_deadline
              ∷ injected k
                  (conn_info client site answer.0)
                  payload
                  (pos 8)
                  (22 ∷ 3 ∷ [])
                  true
                  ((1 ∷ 2 ∷ []) ∷ (5 ∷ 6 ∷ []) ∷ [])
                  ((5 ∷ 6 ∷ []) ∷ []),
          record shared { tracker = answer.1; counter = 1 },
        ))
inject_and_forward-injected_example =
    inject_and_forward-injected https (λ j. none) shared browser (server_at (ticks 501 0))
      (22 ∷ 3 ∷ []) client site ((1 ∷ 2 ∷ []) ∷ (5 ∷ 6 ∷ []) ∷ []) ((5 ∷ 6 ∷ []) ∷ []) refl refl
      refl (omega arith) browser_up browser_down (ticks-AreSpaced 501 0) enough_ticks

abbrev plain_calls : List HandlerCall
plain_calls =
    write_server (1 ∷ 2 ∷ [])
    ∷ write_server (5 ∷ 6 ∷ [])
    ∷ write_app (5 ∷ 6 ∷ [])
    ∷ close_server
    ∷ close_app
    ∷ on_close
    ∷ []

plain_run :
    new_connection_ex https (λ k. none) shared (arrival (server_at []) 80) browser
    ≡ ok (plain_calls, shared)
unfolding new_connection_ex has_port pipe cp resolve_dst
plain_run = refl

new_connection_ex-closing_example :
    (work : List HandlerCall) × (plain_calls ≡ work ++ close_server ∷ close_app ∷ on_close ∷ [])
    × All IsWork work
new_connection_ex-closing_example =
    new_connection_ex-closing https (λ k. none) shared (arrival (server_at []) 80) browser
      (plain_calls, shared) plain_run

plain_port : has_port 80 (443 ∷ []) ≡ false
unfolding has_port
plain_port = refl

new_connection_ex-IsNoFake_example : All IsNoFake plain_calls
new_connection_ex-IsNoFake_example =
    new_connection_ex-IsNoFake https (λ k. none) shared (arrival (server_at []) 80) browser
      (plain_calls, shared) plain_port plain_run

abbrev closed_pipe : Pipe
closed_pipe = record {
  forward = finished;
  backward = arming;
  read_a = true;
  write_a = true;
  read_b = true;
  write_b = true;
}

abbrev last_steps : List PipeEvent
last_steps =
    set_read_deadline ∷ read_nothing ∷ set_read_deadline ∷ read_data ∷ write_error ∷ set_deadline_a
    ∷ set_deadline_b ∷ []

abbrev idle : Opened
idle = record {
  raw_socket = false;
  capture = false;
  tracker = false;
  network_monitor = false;
  iface_monitor = false;
  tun_device = false;
  stack = false;
  context = false;
}

abbrev no_stack : TunAnswers
no_stack = record {
  raw_socket = true;
  capture = true;
  new_network_monitor = true;
  new_iface_monitor = true;
  start_network_monitor = true;
  start_iface_monitor = true;
  new_device = true;
  new_stack = true;
  start_device = true;
  start_stack = false;
}

stack_fails : (manager_start [] no_stack (new_tun_manager https) idle).2 ≡ some start_stack_error
unfolding manager_start start_seq_tracker init_networking start_device new_tun_manager
stack_fails = refl

start_failed_leaves_example :
    ((manager_start [] no_stack (new_tun_manager https) idle).1.raw_socket ≡ false)
    × ((manager_start [] no_stack (new_tun_manager https) idle).1.tun_device ≡ false)
    × ((manager_start [] no_stack (new_tun_manager https) idle).1.context ≡ true)
    × ((manager_start [] no_stack (new_tun_manager https) idle).1.network_monitor ≡ true)
    × ((manager_start [] no_stack (new_tun_manager https) idle).1.iface_monitor ≡ true)
    × ((manager_start [] no_stack (new_tun_manager https) idle).1.stack ≡ true)
start_failed_leaves_example =
    start_failed_leaves [] no_stack (new_tun_manager https) idle
      (refl, refl, refl, refl, refl, refl, refl) start_stack_error stack_fails
