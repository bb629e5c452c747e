-- ===== src/App/Tests.antt =====
-- The theorems at concrete systems and flags.
use gecit_unofficial.Base.{
  ◌≡◌, refl, true, false, none, some, [], ◌∷◌, ◌++◌, contains, IsWordText, returns, codes, text_eq,
  is_space, trim_left, trim_right, trim_space, has_prefix, ◌↔◌, Option,
}
use gecit_unofficial.Dns.Darwin.{set_servers, remove_breadcrumb}
use gecit_unofficial.Base.Int.{pos}
use gecit_unofficial.Router.Config.{
  Config, trim_strings, normalized, is_letter, is_word, all_word, table_name_matches,
  validate_ports, validate_normalized, validate,
}
use gecit_unofficial.Router.Engine.{
  new_runner, apply_batch, runner_start, runner_stop, cancel_context, await_done,
}
use gecit_unofficial.Router.Nftables.{rules_of, build_rule_set, setup_batch, teardown_batch}
use gecit_unofficial.App.RouterRun.{
  RouterFlags, router_config_from_flags, RunAnswers, run_router_engine, run_router_engine-teardown,
}
use gecit_unofficial.App.Flags.{int_slice_to_ports, split_targets}
use gecit_unofficial.App.CleanupCases.{mac_cleanup_two}
use gecit_unofficial.App.Cleanup.{mac_breadcrumb_calls}
use gecit_unofficial.Ebpf.Lifecycle.{
  AttachAnswers, socket_error, detach, attach_rest, attach, IsDetached,
}
use gecit_unofficial.Tun.Pipe.{Round}
use gecit_unofficial.Tun.Lifecycle.{IsClosed}
use gecit_unofficial.Tun.Handler.{TunConfig, AppAnswers}
use gecit_unofficial.Tun.Manager.{
  TunAnswers, start_stack_error, new_tun_manager, start_seq_tracker, init_networking, start_device,
  manager_start,
}
use gecit_unofficial.App.Lifecycle.{
  IsUntouched, LeavesOpen, ebpf_start_failed-IsUntouched, tun_start_failed-LeavesOpen, IsLeft,
  tun_stop-start,
}
use gecit_unofficial.App.Engines.{
  Host, Answers, HaltAnswers, attach_failed, tun_failed, EbpfEngine, ebpf_start_manager, ebpf_start,
  TunEngine, tun_start_manager, tun_start, tun_stop, EngineError,
}

abbrev untouched : Host
untouched = record { dns_server = false; system_dns_set = false; system_resolver_stopped = false }

abbrev answers : Answers
answers = record {
  serve = true;
  set_dns = true;
  half_set = false;
  restore = true;
  end_server = true;
}

abbrev ebpf_engine : EbpfEngine
ebpf_engine = record {
  host = untouched;
  mgr = record {
    has_objs = false;
    has_link = false;
    has_reader = false;
    has_raw_sock = false;
    has_cancel = false;
  };
  attached = record {
    objs = false;
    link = false;
    reader = false;
    raw_socket = false;
    reading = false;
  };
}

abbrev no_socket : AttachAnswers
no_socket = record {
  have_sock_ops = true;
  have_setsockopt = true;
  load_spec = true;
  load_objs = true;
  attach = true;
  push_config_ok = true;
  push_ports_ok = true;
  push_ips_ok = true;
  new_reader = true;
  raw_socket = false;
}

-- The reader's and the context's fields stay.
abbrev ebpf_after : EbpfEngine
ebpf_after = record ebpf_engine { mgr = record ebpf_engine.mgr { has_reader = true } }

ebpf_fails :
    ebpf_start true answers no_socket ebpf_engine ≡ (ebpf_after, some (attach_failed socket_error))
unfolding ebpf_start ebpf_start_manager attach attach_rest detach
ebpf_fails = refl

ebpf_start_failed-IsUntouched_example : IsUntouched untouched × IsDetached ebpf_after.attached
ebpf_start_failed-IsUntouched_example =
    ebpf_start_failed-IsUntouched true answers no_socket ebpf_engine ebpf_after
      (attach_failed socket_error) (refl, refl, refl) (refl, refl, refl)
      (refl, refl, refl, refl, refl) ebpf_fails

abbrev tun_config : TunConfig
tun_config = record { ports = 443 ∷ []; fake_ttl = pos 8; interface = codes "en0" }

abbrev last_round : Round
last_round = record { got = 5 ∷ 6 ∷ []; read_failed = true; write_failed = false }

abbrev fine_round : Round
fine_round = record { got = 1 ∷ 2 ∷ []; read_failed = false; write_failed = false }

abbrev browser : AppAnswers
browser = record {
  hello = some (22 ∷ 3 ∷ []);
  up = fine_round ∷ last_round ∷ [];
  down = last_round ∷ [];
}

abbrev tun_engine : TunEngine
tun_engine = record {
  host = untouched;
  mgr = new_tun_manager tun_config;
  opened = record {
    raw_socket = false;
    capture = false;
    tracker = false;
    network_monitor = false;
    iface_monitor = false;
    tun_device = false;
    stack = false;
    context = false;
  };
}

abbrev all_start : TunAnswers
all_start = record {
  raw_socket = true;
  capture = true;
  new_network_monitor = true;
  new_iface_monitor = true;
  start_network_monitor = true;
  start_iface_monitor = true;
  new_device = true;
  new_stack = true;
  start_device = true;
  start_stack = true;
}

abbrev stack_dead : TunAnswers
stack_dead = record all_start { start_stack = false }

abbrev tun_failed_start : TunEngine × Option EngineError
tun_failed_start = tun_start true answers [] stack_dead tun_engine

tun_fails : tun_failed_start ≡ (tun_failed_start.0, some (tun_failed start_stack_error))
unfolding tun_start tun_start_manager manager_start start_seq_tracker init_networking start_device
    new_tun_manager
tun_fails = refl

tun_start_failed-LeavesOpen_example :
    IsUntouched tun_failed_start.0.host
    × LeavesOpen (tun_failed start_stack_error) tun_failed_start.0.opened
tun_start_failed-LeavesOpen_example =
    tun_start_failed-LeavesOpen true answers [] stack_dead tun_engine tun_failed_start.0
      (tun_failed start_stack_error) (refl, refl, refl) (refl, refl, refl)
      (refl, refl, refl, refl, refl, refl, refl) tun_fails

abbrev tun_run : TunEngine × Option EngineError
tun_run = tun_start true answers [] all_start tun_engine

tun_runs : tun_run ≡ (tun_run.0, none)
unfolding tun_start tun_start_manager manager_start start_seq_tracker init_networking start_device
    new_tun_manager
tun_runs = refl

-- dns.Stop fails
abbrev stuck_server : HaltAnswers
stuck_server = record { restore_ok = true; server_ok = false }

tun_stop-start_example :
    IsLeft true stuck_server (tun_stop true stuck_server tun_run.0).0.host
    × IsClosed (tun_stop true stuck_server tun_run.0).0.opened
    × ((tun_stop true stuck_server tun_run.0).0.opened.capture ≡ tun_run.0.opened.capture)
    × (((tun_stop true stuck_server tun_run.0).1 ≡ none) ↔ (false ≡ true))
tun_stop-start_example =
    tun_stop-start true answers stuck_server [] all_start tun_engine tun_run.0 (refl, refl, refl)
      (refl, refl, refl, refl, refl, refl, refl) tun_runs

cloudflare_word : IsWordText (codes "1.1.1.1")
unfolding is_space
cloudflare_word = (refl, (refl, (refl, (refl, (refl, (refl, (refl, (refl, tt))))))))

google_word : IsWordText (codes "8.8.8.8")
unfolding is_space
google_word = (refl, (refl, (refl, (refl, (refl, (refl, (refl, (refl, tt))))))))

some_server : contains (codes "1.1.1.1") (codes "aren't any") ≡ false
unfolding contains has_prefix
some_server = refl

no_empty_word : text_eq (codes "1.1.1.1") (codes "empty") ≡ false
unfolding text_eq
no_empty_word = refl

mac_cleanup_two_example :
    mac_breadcrumb_calls (some (codes "1.1.1.1" ++ 10 ∷ (codes "8.8.8.8" ++ 10 ∷ codes "Wi-Fi\n")))
    ≡ set_servers (codes "8.8.8.8") (codes "1.1.1.1" ∷ []) ∷ remove_breadcrumb ∷ []
mac_cleanup_two_example =
    mac_cleanup_two (codes "1.1.1.1") (codes "8.8.8.8") (codes "Wi-Fi\n") cloudflare_word
      google_word some_server no_empty_word

abbrev flags : RouterFlags
flags = record {
  wan = codes "eth0";
  lan = [];
  table = [];
  backend_name = codes "nfqueue";
  queue = 0;
  packet_mark = 0;
  tcp = pos 443 ∷ [];
  udp = [];
  quic = false;
  postnat = true;
  ttl = pos 8;
  flows_limit = pos 4096;
  targets = [];
}

abbrev as_root : RunAnswers
as_root = record {
  is_linux = true;
  privileged = true;
  starting = record { runner = none; install = none; early = none; stop = none; remove = none };
  stopping = record { stop = none; finished = none; remove = none };
}

abbrev chosen : Config
chosen = normalized (normalized (router_config_from_flags (λ t. t) flags))

chosen_valid : validate chosen ≡ none
unfolding validate validate_normalized normalized table_name_matches is_letter is_word all_word
    validate_ports text_eq trim_space trim_left trim_right is_space trim_strings
    router_config_from_flags int_slice_to_ports split_targets
chosen_valid = refl

chosen_rules : build_rule_set (λ t. t) chosen ≡ returns (rules_of (λ t. t) (normalized chosen))
unfolding build_rule_set validate validate_normalized normalized table_name_matches is_letter
    is_word all_word validate_ports text_eq trim_space trim_left trim_right is_space trim_strings
    router_config_from_flags int_slice_to_ports split_targets
chosen_rules = refl

run_router_engine-teardown_example :
    (run_router_engine (λ t. t) (λ t. t) flags as_root).1
    ≡ new_runner
      ∷ apply_batch (setup_batch (rules_of (λ t. t) (normalized chosen))) true
      ∷ runner_start
      ∷ cancel_context
      ∷ runner_stop
      ∷ await_done
      ∷ apply_batch (teardown_batch (rules_of (λ t. t) (normalized chosen))) true
      ∷ []
run_router_engine-teardown_example =
    run_router_engine-teardown (λ t. t) (λ t. t) flags as_root
      (rules_of (λ t. t) (normalized chosen)) refl refl chosen_valid chosen_rules refl refl refl
