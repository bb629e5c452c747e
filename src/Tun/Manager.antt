-- ===== src/Tun/Manager.antt =====
-- pkg/tun/manager.go: the TUN manager. What it opens is the system's and sing-tun's: whether each
-- step succeeds is an answer, and the state is what is open and what the manager holds.
use gecit_unofficial.Base.{
  ℕ, Bool, true, false, not, Option, none, some, List, [], ◌∷◌, ◌==◌, if◌then◌else◌, length, Text,
  is_empty,
}
use gecit_unofficial.Base.Int.{pos, is_zero}
use gecit_unofficial.Capture.Interfaces.{Interface, detect_physical_interface}
use gecit_unofficial.Tun.Handler.{TunConfig}

-- What is open in the system
pub record Opened : Type 0 where
  pub raw_socket : Bool
  -- the capture that the tracker reads from
  pub capture : Bool
  pub tracker : Bool
  pub network_monitor : Bool
  pub iface_monitor : Bool
  pub tun_device : Bool
  pub stack : Bool
  pub context : Bool

-- The fields that are not nil
pub record Manager : Type 0 where
  pub cfg : TunConfig
  pub target_ports : List ℕ
  pub has_raw_sock : Bool
  pub has_network_monitor : Bool
  pub has_iface_monitor : Bool
  pub has_tun_device : Bool
  pub has_stack : Bool
  pub has_cancel : Bool

-- Whether each step succeeds
pub record TunAnswers : Type 0 where
  pub raw_socket : Bool
  pub capture : Bool
  pub new_network_monitor : Bool
  pub new_iface_monitor : Bool
  pub start_network_monitor : Bool
  pub start_iface_monitor : Bool
  pub new_device : Bool
  pub new_stack : Bool
  pub start_device : Bool
  pub start_stack : Bool

pub data TunError : Type 0 where
  raw_socket_error : TunError
  network_monitor_error : TunError
  interface_monitor_error : TunError
  start_network_monitor_error : TunError
  start_interface_monitor_error : TunError
  create_tun_error : TunError
  create_stack_error : TunError
  start_tun_error : TunError
  start_stack_error : TunError

abbrev pub default_ports : List ℕ → List ℕ
default_ports ports = if length ports == 0 then 443 ∷ [] else ports

unfoldable pub new_tun_manager : TunConfig → Manager
new_tun_manager cfg =
    let ports = default_ports cfg.ports in
    record {
      cfg = record cfg {
        ports = ports;
        fake_ttl = if is_zero cfg.fake_ttl then pos 8 else cfg.fake_ttl;
      };
      target_ports = ports;
      has_raw_sock = false;
      has_network_monitor = false;
      has_iface_monitor = false;
      has_tun_device = false;
      has_stack = false;
      has_cancel = false;
    }

abbrev pub phys_iface : Manager → List Interface → Text
phys_iface m ifaces =
    if is_empty m.cfg.interface then detect_physical_interface ifaces else m.cfg.interface

-- startSeqTracker; its error is only logged.
unfoldable pub start_seq_tracker : Text → TunAnswers → Opened → Opened
start_seq_tracker iface ans o =
    if is_empty iface
    then o
    else if not ans.capture
    then o
    else record o { capture = true; tracker = true }

abbrev pub Attempt : Type 0
Attempt = Manager × Opened × Option TunError

-- The monitors that could not be made are nil. Closing one that is not started is as closing one
-- that is.
unfoldable pub init_networking : TunAnswers → Manager → Opened → Attempt
init_networking ans m o =
    let m1 = record m { has_network_monitor = true } in
    let m2 = record m1 { has_iface_monitor = true } in
    let o3 = record o { network_monitor = true } in
    let o4 = record o3 { iface_monitor = true } in
    if not ans.new_network_monitor
    then (m, o, some network_monitor_error)
    else if not ans.new_iface_monitor
    then (m1, o, some interface_monitor_error)
    else if not ans.start_network_monitor
    then (m2, o, some start_network_monitor_error)
    else if not ans.start_iface_monitor
    then (m2, o, some start_interface_monitor_error)
    else (m2, o4, none)

abbrev pub closed_socket : Opened → Opened
closed_socket o = record o { raw_socket = false }

-- From the TUN device on
unfoldable pub start_device : TunAnswers → Manager → Opened → Attempt
start_device ans m o =
    let m1 = record m { has_tun_device = true } in
    let o1 = record o { tun_device = true } in
    let m2 = record m1 { has_stack = true } in
    let o2 = record o1 { stack = true } in
    if not ans.new_device
    then (m, closed_socket o, some create_tun_error)
    else if not ans.new_stack
    then (m1, closed_socket (record o1 { tun_device = false }), some create_stack_error)
    else if not ans.start_device
    then (m2, closed_socket (record o2 { stack = false; tun_device = false }), some start_tun_error)
    else if not ans.start_stack
    then (m2, closed_socket (record o2 { tun_device = false }), some start_stack_error)
    else (m2, o2, none)

abbrev pub after_networking : TunAnswers → Attempt → Attempt
after_networking ans (m, o, none) = start_device ans m o
after_networking ans (m, o, some err) = (m, closed_socket o, some err)

unfoldable pub manager_start : List Interface → TunAnswers → Manager → Opened → Attempt
manager_start ifaces ans m o =
    let m1 = record m { has_cancel = true } in
    let o1 = record o { context = true } in
    let m2 = record m1 { has_raw_sock = true } in
    let o2 = start_seq_tracker (phys_iface m ifaces) ans (record o1 { raw_socket = true }) in
    if not ans.raw_socket
    then (m1, o1, some raw_socket_error)
    else after_networking ans (init_networking ans m2 o2)

-- Stop closes what the manager holds; the tracker is only let go.
unfoldable pub manager_stop : Manager → Opened → Opened
manager_stop m o = record o {
  context = if m.has_cancel then false else o.context;
  stack = if m.has_stack then false else o.stack;
  tun_device = if m.has_tun_device then false else o.tun_device;
  raw_socket = if m.has_raw_sock then false else o.raw_socket;
  iface_monitor = if m.has_iface_monitor then false else o.iface_monitor;
  network_monitor = if m.has_network_monitor then false else o.network_monitor;
  tracker = false;
}
