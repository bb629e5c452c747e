-- ===== src/Ebpf/Manager.antt =====
-- pkg/ebpf/manager.go and config.go: what the manager pushes into the program's maps, and what it
-- reads from its events. The machine is little-endian, as the two that the program is built for.
use gecit_unofficial.Base.{
  ℕ, ◌+◌, ◌*◌, bit_or, Bool, Option, none, some, List, [], ◌∷◌, ltb, ◌==◌, if◌then◌else◌, shl, shr,
  length, get_or, take, drop, Bytes, u8, Text, codes, is_empty,
}
use gecit_unofficial.Ebpf.Sockops.{BpfConfig, ConnEvent, Maps}
use gecit_unofficial.Base.Int.{ℤ, pos, is_zero, wrap_int}
use gecit_unofficial.Rawsock.Packet.{ConnInfo, to4}

pub record ManagerConfig : Type 0 where
  pub mss : ℤ
  pub restore_mss : ℤ
  pub restore_after_bytes : ℤ
  pub ports : List ℕ
  pub exclude_ips : List Bytes
  pub cgroup_path : Text
  pub fake_ttl : ℤ

unfoldable pub new_manager : ManagerConfig → ManagerConfig
new_manager c = record c {
  mss = if is_zero c.mss then pos 40 else c.mss;
  restore_after_bytes = if is_zero c.restore_after_bytes then pos 600 else c.restore_after_bytes;
  cgroup_path = if is_empty c.cgroup_path then codes "/sys/fs/cgroup" else c.cgroup_path;
  ports = if length c.ports == 0 then 443 ∷ [] else c.ports;
  fake_ttl = if is_zero c.fake_ttl then pos 8 else c.fake_ttl;
}

-- cilium's Map.Update on a hash map that is used as a set; `none` is an error.
abbrev pub Update : Type 0
Update = ℕ → List ℕ → Option (List ℕ)

abbrev pub config_with : ManagerConfig → ℕ → BpfConfig
config_with c enabled = record {
  mss = wrap_int 16 c.mss;
  restore_mss = wrap_int 16 c.restore_mss;
  restore_after_bytes = wrap_int 32 c.restore_after_bytes;
  enabled = enabled;
}

unfoldable pub push_config : ManagerConfig → Maps → Maps
push_config c m = record m { config_map = some (config_with c 1) }

unfoldable pub update_enabled : ManagerConfig → Bool → Maps → Maps
update_enabled c enabled m = record m {
  config_map = some (config_with c (if enabled then 1 else 0));
}

unfoldable pub push_target_ports : Update → List ℕ → List ℕ → Option (List ℕ)
push_target_ports put [] keys = some keys
push_target_ports put (port ∷ ports) keys = elim (put port keys) [
  | none ↦ none
  | some keys' ↦ push_target_ports put ports keys'
]

-- uint32(a) | uint32(b)<<8 | uint32(c)<<16 | uint32(d)<<24
unfoldable pub ip_key : ℕ → ℕ → ℕ → ℕ → ℕ
ip_key a b c d = bit_or (bit_or (bit_or a (shl b 8)) (shl c 16)) (shl d 24)

-- The key of an address; `none` where To4 is nil.
unfoldable pub key_of : Bytes → Option ℕ
key_of ip = elim (to4 ip) [ some (a ∷ b ∷ c ∷ d ∷ []) ↦ some (ip_key a b c d) | _ ↦ none ]

unfoldable pub push_exclude_ips : Update → List Bytes → List ℕ → Option (List ℕ)
push_exclude_ips put [] keys = some keys
push_exclude_ips put (ip ∷ ips) keys = elim (key_of ip) [
  | none ↦ push_exclude_ips put ips keys
  | some key ↦ elim (put key keys) [ none ↦ none | some keys' ↦ push_exclude_ips put ips keys' ]
]

-- The three pushes of Start, in its order.
unfoldable pub push_all : Update → ManagerConfig → Maps → Option Maps
push_all put c m = elim (push_target_ports put c.ports m.target_ports) [
  | none ↦ none
  | some ports ↦ elim (push_exclude_ips put c.exclude_ips m.exclude_ips) [
    | none ↦ none
    | some ips ↦ some (record (push_config c m) { target_ports = ports; exclude_ips = ips })
  ]
]

-- binary.NativeEndian.Uint16, Uint32 and PutUint32
abbrev pub native_uint16 : Bytes → ℕ
native_uint16 b = get_or b 0 0 + get_or b 1 0 * 256

abbrev pub native_uint32 : Bytes → ℕ
native_uint32 b = native_uint16 b + get_or b 2 0 * 65536 + get_or b 3 0 * 16777216

abbrev pub native_put_uint16 : ℕ → Bytes
native_put_uint16 v = u8 v ∷ u8 (shr v 8) ∷ []

abbrev pub native_put_uint32 : ℕ → Bytes
native_put_uint32 v = u8 v ∷ u8 (shr v 8) ∷ u8 (shr v 16) ∷ u8 (shr v 24) ∷ []

abbrev pub uint32_to_ip : ℕ → Bytes
uint32_to_ip n = native_put_uint32 n

-- One record of readEvents; `none` is its `continue`.
unfoldable pub decode_event : Bytes → Option ConnEvent
decode_event s =
    if ltb (length s) 20
    then none
    else some (record {
      src_ip = native_uint32 (take 4 s);
      dst_ip = native_uint32 (take 4 (drop 4 s));
      src_port = native_uint16 (take 2 (drop 8 s));
      dst_port = native_uint16 (take 2 (drop 10 s));
      seq = native_uint32 (take 4 (drop 12 s));
      ack = native_uint32 (take 4 (drop 16 s));
    })

-- The connection that injectFake hands to SendFake.
unfoldable pub conn_of : ConnEvent → ConnInfo
conn_of evt = record {
  src_ip = uint32_to_ip evt.src_ip;
  dst_ip = uint32_to_ip evt.dst_ip;
  src_port = evt.src_port;
  dst_port = evt.dst_port;
  seq = evt.seq;
  ack = evt.ack;
}
