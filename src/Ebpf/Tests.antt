-- ===== src/Ebpf/Tests.antt =====
-- The theorems at concrete maps and callbacks.
use gecit_unofficial.Base.{
  ℕ, ◌≤◌, ◌<◌, ◌≡◌, refl, ◌⊎◌, inl, inr, true, none, some, List, [], ◌∷◌, ◌++◌, arith, ltb, ◌==◌,
  if◌then◌else◌, Bool-cases, length, ◌+◌, ok, ◌*◌, ◌/◌, ◌%◌,
}
use gecit_unofficial.Ebpf.Restore.{callback, evicted, count_settings, count_settings_le}
use gecit_unofficial.Ebpf.Established.{IsIntercepted}
use gecit_unofficial.Ebpf.Threshold.{run_callbacks, mss_settings, mss_cycle}
use gecit_unofficial.Ebpf.Pushed.{Adds, pushed-intercepts_iff, handshake_to}
use gecit_unofficial.Ebpf.Events.{FitsEvent}
use gecit_unofficial.Ebpf.Manager.{
  ManagerConfig, new_manager, Update, config_with, push_config, push_target_ports, ip_key, key_of,
  push_exclude_ips, push_all,
}
use gecit_unofficial.Ebpf.Sockops.{
  BpfConfig, ConnEvent, Maps, SockOpsMd, Abi, has_key, lookup, gecit_sockops,
}
use gecit_unofficial.Base.Int.{pos}
use gecit_unofficial.Rawsock.Packet.{to4}
use gecit_unofficial.Ebpf.Reader.{
  Sent, ReaderState, read_events, samples, read_events-conns, AreFakesFor,
}
use gecit_unofficial.Ebpf.Excluded.{IsExcluded, HasPort}

abbrev abi : Abi
abi = record {
  ntohl = λ n. n;
  active_established_cb = 4;
  hdr_opt_len_cb = 14;
  write_hdr_opt_cb = 15;
  write_hdr_opt_cb_flag = 64;
}

abbrev cfg : BpfConfig
cfg = record { mss = 88; restore_mss = 0; restore_after_bytes = 600; enabled = 1 }

abbrev maps : Maps
maps = record {
  config_map = some cfg;
  target_ports = 443 ∷ [];
  exclude_ips = 7 ∷ [];
  connections = [];
}

abbrev callback_at : ℕ → ℕ → SockOpsMd
callback_at op len = record {
  op = op;
  remote_ip4 = 9;
  remote_port = 443;
  local_ip4 = 8;
  local_port = 50000;
  snd_nxt = 1;
  rcv_nxt = 2;
  skb_len = len;
  cb_flags = 0;
  cookie = 77;
}

abbrev segments : List SockOpsMd
segments = callback_at 15 400 ∷ callback_at 15 400 ∷ []

target : IsIntercepted abi maps (callback_at 4 0)
unfolding has_key
target = (refl, refl)

mss_cycle_example :
    (800 ≤ 600 → mss_settings (run_callbacks abi maps (callback_at 4 0 ∷ segments)).1 ≡ 88 ∷ [])
    × (600 < 800
        → (mss_settings (run_callbacks abi maps (callback_at 4 0 ∷ segments)).1 ≡ 88 ∷ 1460 ∷ [])
          × (lookup 77 (run_callbacks abi maps (callback_at 4 0 ∷ segments)).0.connections ≡ none))
mss_cycle_example =
    mss_cycle abi maps (callback_at 4 0) cfg segments refl (omega arith) (omega arith, omega arith)
      refl target ((refl, refl), ((refl, refl), tt)) (omega arith)

count_settings_le_example :
    count_settings abi 77 maps (callback (callback_at 15 400) ∷ evicted 77 ∷ []) ≤ 1
count_settings_le_example =
    count_settings_le abi 77 maps (callback (callback_at 15 400) ∷ evicted 77 ∷ [])
      ((λ e. omega arith), (tt, tt))

-- A hash map of 64 entries, as the program's two.
abbrev put : Update
put k keys =
    if has_key k keys then some keys else if ltb (length keys) 64 then some (k ∷ keys) else none

put-Adds : Adds put
unfolding has_key
put-Adds k j keys keys' h = elim (Bool-cases (has_key k keys)) [
  | inl e ↦ elim (Bool-cases (k == j)) [
    | inl same ↦ let eq : k ≡ j = ground (arith, same) in ground (arith, e, h, rw eq at e, same)
    | inr other ↦ ground (arith, e, h, other)
  ]
  | inr e ↦ ground (arith, e, h)
]

abbrev manager : ManagerConfig
manager = record {
  mss = pos 88;
  restore_mss = pos 0;
  restore_after_bytes = pos 0;
  ports = [];
  exclude_ips = (8 ∷ 8 ∷ 4 ∷ 9 ∷ []) ∷ [];
  cgroup_path = [];
  fake_ttl = pos 0;
}

abbrev empty_maps : Maps
empty_maps = record { config_map = none; target_ports = []; exclude_ips = []; connections = [] }

abbrev pushed_maps : Maps
pushed_maps = record {
  config_map = some (record { mss = 88; restore_mss = 0; restore_after_bytes = 600; enabled = 1 });
  target_ports = 443 ∷ [];
  exclude_ips = 151259144 ∷ [];
  connections = [];
}

pushes : push_all put (new_manager manager) empty_maps ≡ some pushed_maps
unfolding push_all push_target_ports push_exclude_ips push_config new_manager key_of to4 ip_key
    has_key
pushes = refl

-- The port stands in the two high bytes, the higher of them first.
abbrev little_endian : Abi
little_endian = record abi {
  ntohl =
      λ n. n / 16777216 % 256 + n / 65536 % 256 * 256 + n / 256 % 256 * 65536 + n % 256 * 16777216;
}

-- To 8.8.4.4 and port 443
abbrev handshake : SockOpsMd
handshake = record (callback_at 4 0) { remote_ip4 = 67373064; remote_port = 3137404928 }

pushed-intercepts_iff_example :
    (((IsExcluded 8 8 4 4 manager.exclude_ips → ⊥) × HasPort 443 (new_manager manager).ports)
      × (gecit_sockops little_endian pushed_maps handshake
          ≡ handshake_to 443 little_endian
              (config_with (new_manager manager) 1)
              pushed_maps
              handshake))
    ⊎ ((IsExcluded 8 8 4 4 manager.exclude_ips ⊎ (HasPort 443 (new_manager manager).ports → ⊥))
        × (gecit_sockops little_endian pushed_maps handshake ≡ (pushed_maps, [])))
pushed-intercepts_iff_example =
    pushed-intercepts_iff put little_endian manager empty_maps pushed_maps handshake 8 8 4 4 443
      put-Adds refl refl pushes refl (omega arith, tt) (omega arith) (omega arith) (omega arith)
      (omega arith)

abbrev event : ConnEvent
event = record {
  src_ip = 33620160;
  dst_ip = 16843009;
  src_port = 50000;
  dst_port = 443;
  seq = 5;
  ack = 6;
}

fits_event : FitsEvent event
fits_event = record {
  src_ip = omega arith;
  dst_ip = omega arith;
  src_port = omega arith;
  dst_port = omega arith;
  seq = omega arith;
  ack = omega arith;
}

read_events-conns_example :
    (sent : List Sent) × (end : ReaderState) × (read_events
        (pos 8)
        (λ k. none)
        (samples (0 ∷ []) true (event ∷ event ∷ []) ++ none ∷ [])
        (record { counter = 5; queue = none })
      ≡ ok (sent, end))
    × AreFakesFor (pos 8) 5 (event ∷ event ∷ []) sent
    × (end.counter ≡ 5 + 2)
read_events-conns_example =
    read_events-conns (pos 8) (λ k. none) true (0 ∷ []) (event ∷ event ∷ []) []
      (record { counter = 5; queue = none }) (fits_event, (fits_event, tt)) (omega arith)
